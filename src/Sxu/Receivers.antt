-- ===== src/Sxu/Receivers.antt =====
-- pkg/sxu/rtc/receivers.go, pkg/sxu/rtc/rtc.go and pkg/sxu/rtc/peer.go: the loop of an `RTC` object,
-- over what it receives, with the answers of the local peer and of `Send`. `json.Unmarshal` of a
-- candidate and `String()` of an error are parameters; the error of `CloseSend` is left out.
pub mod Answered
use dion.Prelude.{
  Bool, true, false, Option, none, some, List, [], ◌∷◌, ◌++◌, String, String-discrete, holds,
  if◌then◌else◌,
}
use dion.Sfu.Messages.{
  Description, ErrorCode, Reply, join_reply, description_reply, trickle_reply, track_event,
  subscription_reply, error_reply, unknown_reply, Request, join_request,
}
use dion.Sfu.Replies.{Answer, answered, refuses}
use dion.Sfu.Requests.{send_answer, rtc_join}

-- The error that `Recv` ends with; the loop returns it. The stream is closed after the first two.
pub data RecvError : Type 0 where
  eof canceled : RecvError
  fails : String → RecvError

-- A message, with the answer of the local peer to a description, and the error of `AddICECandidate`
-- for a candidate or of `Send` for an answer; or the end.
pub data Received : Type 0 where
  message : Reply → Answer → Option String → Received
  ends : RecvError → Received

-- What was given to the peer and to the stream, and what `onSingalHandle` has returned, if it has.
pub record Rtc (C : Type 0) : Type 0 where
  pub added : List C
  pub sent : List Request
  pub closed : Bool
  pub returned : Option String

unfoldable pub new_rtc : {C : Type 0} → Rtc C
new_rtc = record { added = []; sent = []; closed = false; returned = none }

abbrev pub returns : {C : Type 0} → String → Rtc C → Rtc C
returns e r = record r { returned = some e }

module _ {C : Type 0} (parse : String → C) (error_text : Option (ErrorCode × String) → String) where
  -- `RTC.trickle`, whatever the target.
  unfoldable pub rtc_trickle : String → Option String → Rtc C → Rtc C
  rtc_trickle init none r = record r { added = r.added ++ parse init ∷ [] }
  rtc_trickle init (some e) r = record r { added = r.added ++ parse init ∷ []; returned = some e }

  -- `RTC.negotiate`
  unfoldable pub rtc_negotiate : Answer → Option String → Rtc C → Rtc C
  rtc_negotiate (refuses e) result r = returns e r
  rtc_negotiate (answered d) none r = record r { sent = r.sent ++ send_answer d ∷ [] }
  rtc_negotiate (answered d) (some e) r = record r {
    sent = r.sent ++ send_answer d ∷ [];
    returned = some e;
  }

  -- A message.
  unfoldable pub rtc_handle : Reply → Answer → Option String → Rtc C → Rtc C
  rtc_handle (join_reply true err d) a result r = r
  rtc_handle (join_reply false err d) a result r = returns (error_text err) r
  rtc_handle (description_reply target d) a result r =
      let negotiated = rtc_negotiate a result r in
      if holds (String-discrete d.kind "offer") then negotiated else r
  rtc_handle (trickle_reply init target) a result r = rtc_trickle init result r
  rtc_handle (track_event uid tracks state) a result r = r
  rtc_handle (subscription_reply true err) a result r = r
  rtc_handle (subscription_reply false err) a result r = returns (error_text err) r
  rtc_handle (error_reply code reason) a result r = returns (error_text (some (code, reason))) r
  rtc_handle unknown_reply a result r = r

  -- The end of a stream: its error is returned, after `CloseSend` but for the last case.
  unfoldable pub rtc_end : RecvError → Rtc C → Rtc C
  rtc_end eof r = record r { closed = true; returned = some "EOF" }
  rtc_end canceled r = record r { closed = true; returned = some "canceled" }
  rtc_end (fails e) r = returns e r

  abbrev pub receive_one : Received → Rtc C → Rtc C
  receive_one (message m a result) r = rtc_handle m a result r
  receive_one (ends e) r = rtc_end e r

  -- `onSingalHandle`: nothing is received after it has returned.
  unfoldable pub on_signal_handle : Rtc C → List Received → Rtc C
  on_signal_handle r [] = r
  on_signal_handle r (x ∷ rest) =
      let v = receive_one x r in
      let more = on_signal_handle v rest in elim v.returned [ none ↦ more | some e ↦ v ]

  -- `RTC.Run`, with the errors of the local join and of `SendJoin`.
  unfoldable pub rtc_run : String → String → Option String → Option String → List Received → Rtc C
  rtc_run sid uid (some e) result rest = returns e new_rtc
  rtc_run sid uid none (some e) rest = record new_rtc {
    sent = join_request (rtc_join sid uid) ∷ [];
    returned = some e;
  }
  rtc_run sid uid none none rest =
      on_signal_handle (record new_rtc { sent = join_request (rtc_join sid uid) ∷ [] }) rest
