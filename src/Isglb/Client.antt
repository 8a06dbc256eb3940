-- ===== src/Isglb/Client.antt =====
-- pkg/isglb/client.go: `SendSFUStatus` and `SendQualityReport`, on the client of util/client.go. The
-- operation that `sendSFUStatusExec` executes is a loop over attempts, with what each one meets.
pub mod Sending
use dion.Prelude.{Bool, true, false, Option, List, [], ◌∷◌, ℕ, String, if◌then◌else◌}
use dion.Util.Client.{UtilClient, do_with_client, send_on, send_request, close_client}

-- Whether the client was closed before the attempt, or a newer status was given to `SendSFUStatus`;
-- whether a stream could be made, and the error of `Send`.
pub record Attempt : Type 0 where
  pub closed : Bool
  pub superseded : Bool
  pub made : Bool
  pub result : Option String

-- `SyncRequest`, with its two requests.
pub data SyncMessage (S R : Type 0) : Type 0 where
  status_message : S → SyncMessage S R
  report_message : R → SyncMessage S R

module _ {S R B : Type 0} where
  abbrev pub closed_before :
      Attempt → UtilClient (SyncMessage S R) B → UtilClient (SyncMessage S R) B
  closed_before a c = if a.closed then close_client c else c

  -- A try to send the status, and whether it is the last one.
  abbrev pub try_status :
      Attempt → S → UtilClient (SyncMessage S R) B → UtilClient (SyncMessage S R) B × Bool
  try_status a s c =
      if c.top_done
      then (c, true)
      else (if a.superseded
          then (c, true)
          else do_with_client a.made (send_on (status_message s) a.result) c)

  -- The loop of `SendSFUStatus`, and whether it has returned.
  unfoldable pub send_sfu_status :
      S → List Attempt → UtilClient (SyncMessage S R) B → UtilClient (SyncMessage S R) B × Bool
  send_sfu_status s [] c = (c, false)
  send_sfu_status s (a ∷ rest) c =
      let (d, ok) = try_status a s (closed_before a c) in
      let more = send_sfu_status s rest d in if ok then (d, true) else more

  -- `SendQualityReport`
  unfoldable pub send_quality_report :
      Bool → Option String → R → UtilClient (SyncMessage S R) B → UtilClient (SyncMessage S R) B
  send_quality_report made result r c = send_request made (report_message r) result c
