-- ===== src/Isglb/Service.antt =====
-- pkg/isglb/service.go: `routineSFUStatusRecv`, which owns the tables of the service, with the
-- registration of send channels by `SyncSFU`. Statuses are `util.SFUStatusItem`s behind the
-- interface `Item`; streams are compared as pointers. An event is what the routine meets next.
pub mod Forget
pub mod Send
pub mod Receive
use dion.Prelude.{
  Bool, true, false, Option, none, some, List, [], ◌∷◌, ◌++◌, ℕ, ◌+◌, ltb, String, String-discrete,
  is_some, if◌then◌else◌,
}
use dion.Prelude.GoMap.{GoMap, get, put, del, values}
use dion.Proto.{Message}
use dion.Util.Set.{Item}
use dion.Util.SetMap.{
  SetMapaMteS, add_pair, remove_key, remove_value, get_unique_keys, get_set, new_relation,
}

-- `pb.SyncRequest`: a oneof, which may also be unset.
pub data SyncRequest (S R : Type 0) : Type 0 where
  unset : SyncRequest S R
  report : R → SyncRequest S R
  status : S → SyncRequest S R

-- `isglbRecvMessage`
pub record RecvMessage (S R Sig : Type 0) : Type 0 where
  pub request : Option (SyncRequest S R)
  pub sigkey : Option Sig
  pub deleted : Option Sig

-- What the receive routine keeps while it collects messages.
pub record Table (S R Sig : Type 0) : Type 0 where
  pub where_to_send : SetMapaMteS String Sig
  pub latest_status : GoMap String S
  pub recv_count : ℕ
  pub saved_reports : GoMap String R

-- The service: its table, the open send channels, the algorithm with its own state, and what was
-- sent so far, oldest first.
pub record Service (S R Sig Alg : Type 0) : Type 0 where
  pub table : Table S R Sig
  pub send_chs : GoMap Sig (Unit {0})
  pub alg : Alg
  pub sent : List (Sig × S)

-- What the routine and the streams do to the service.
-- `arrives`: a message is taken from `recvCh`. `drained`: `recvCh` is found empty. `connects` and
-- `exits`: `SyncSFU` opens and closes the send channel of its stream.
pub data Event (S R Sig : Type 0) : Type 0 where
  arrives : RecvMessage S R Sig → Event S R Sig
  drained : Event S R Sig
  connects exits : Sig → Event S R Sig

module _ {S : Type 0} (item : Item S) where
  open item use {key, compare, clone}

  -- `lastStatus, ok := latestStatus[nid]; ok && lastStatus.Compare(s)`
  unfoldable pub unchanged : GoMap String S → String → S → Bool
  unchanged latest nid s = elim (get String-discrete nid latest) [
    | none ↦ false
    | some last ↦ compare last s
  ]

  -- `expectedStatusDict`: of two statuses of one node the later one stays.
  unfoldable pub expected_dict : List S → GoMap String S → GoMap String S
  expected_dict [] d = d
  expected_dict (s ∷ rest) d = expected_dict rest (put String-discrete (key s) (clone s) d)

  abbrev pub clones : GoMap String S → List S
  clones [] = []
  clones ((nid, s) ∷ rest) = clone s ∷ clones rest

module _ {Sig : Type 0} (sig_discrete : Discrete Sig) where
  abbrev pub open_head : GoMap Sig (Unit {0}) → List Sig → Option Sig
  open_head chs [] = none
  open_head chs (sig ∷ rest) = if is_some (get sig_discrete sig chs) then some sig else none

  -- `sigs[0]`, if there is one and its send channel is open.
  unfoldable pub send_target : SetMapaMteS String Sig → GoMap Sig (Unit {0}) → String → Option Sig
  send_target r chs nid = open_head chs (get_set String-discrete sig_discrete r.forward nid)

module _ {S R Sig : Type 0} (item : Item S) (report_message : Message R)
    (sig_discrete : Discrete Sig) where
  open item use {key, clone}

  -- One round of the loop over `GetUniqueKeys(deletedSig)`.
  unfoldable pub forget_key : String → Table S R Sig → Table S R Sig
  forget_key nid t =
      let r = remove_key String-discrete sig_discrete t.where_to_send nid in
      if is_some (get String-discrete nid t.latest_status)
      then record t {
        where_to_send = r;
        latest_status = del String-discrete nid t.latest_status;
        recv_count = t.recv_count + 1;
      }
      else record t { where_to_send = r }

  unfoldable pub forget_keys : List String → Table S R Sig → Table S R Sig
  forget_keys [] t = t
  forget_keys (nid ∷ rest) t = forget_keys rest (forget_key nid t)

  unfoldable pub forget_sig : Sig → Table S R Sig → Table S R Sig
  forget_sig sig t =
      let u = forget_keys (get_unique_keys String-discrete sig_discrete t.where_to_send sig) t in
      record u { where_to_send = remove_value String-discrete sig_discrete u.where_to_send sig }

  unfoldable pub save_report : R → Table S R Sig → Table S R Sig
  save_report r t =
      let text = report_message.text r in
      if is_some (get String-discrete text t.saved_reports) then t else record t {
        saved_reports = put String-discrete text (report_message.clone r) t.saved_reports;
        recv_count = t.recv_count + 1;
      }

  unfoldable pub save_status : S → Sig → Table S R Sig → Table S R Sig
  save_status s sig t =
      let r = add_pair String-discrete sig_discrete t.where_to_send (key s) sig in
      if unchanged item t.latest_status (key s) s
      then record t { where_to_send = r }
      else record t {
        where_to_send = r;
        latest_status = put String-discrete (key s) (clone s) t.latest_status;
        recv_count = t.recv_count + 1;
      }

  unfoldable pub save_request : SyncRequest S R → Sig → Table S R Sig → Table S R Sig
  save_request unset sig t = t
  save_request (report r) sig t = save_report r t
  save_request (status s) sig t = save_status s sig t

  abbrev pub forget_deleted : Option Sig → Table S R Sig → Table S R Sig
  forget_deleted none t = t
  forget_deleted (some sig) t = forget_sig sig t

  abbrev pub save_opt : Option (SyncRequest S R) → Option Sig → Table S R Sig → Table S R Sig
  save_opt (some q) (some sig) t = save_request q sig t
  save_opt (some q) none t = t
  save_opt none sig t = t

  -- The body of the inner loop, for a received message.
  unfoldable pub receive : RecvMessage S R Sig → Table S R Sig → Table S R Sig
  receive msg t = save_opt msg.request msg.sigkey (forget_deleted msg.deleted t)

  -- One round of the sending loop, over the latest statuses and what was sent before.
  unfoldable pub send_one :
      SetMapaMteS String Sig
      → GoMap Sig (Unit {0})
      → String
      → S
      → GoMap String S × List (Sig × S)
      → GoMap String S × List (Sig × S)
  send_one r chs nid s (latest, out) =
      if unchanged item latest nid s
      then (latest, out)
      else elim (send_target sig_discrete r chs nid) [
        | none ↦ (latest, out)
        | some sig ↦ (put String-discrete nid s latest, out ++ (sig, s) ∷ [])
      ]

  unfoldable pub send_each :
      SetMapaMteS String Sig
      → GoMap Sig (Unit {0})
      → GoMap String S
      → GoMap String S × List (Sig × S)
      → GoMap String S × List (Sig × S)
  send_each r chs [] acc = acc
  send_each r chs ((nid, s) ∷ rest) acc = send_each r chs rest (send_one r chs nid s acc)

  module _ {Alg : Type 0} (update_sfu_status : Alg → List S → List R → List S × Alg) where
    -- The part of the outer loop below the inner one, then the start of the next round.
    unfoldable pub proceed : Service S R Sig Alg → Service S R Sig Alg
    proceed s =
        let t = s.table in
        let (expected, alg) =
          update_sfu_status s.alg (clones item t.latest_status) (values t.saved_reports) in
        let (latest, out) =
          send_each t.where_to_send s.send_chs (expected_dict item expected [])
            (t.latest_status, []) in
        record {
          table = record t { latest_status = latest; recv_count = 0; saved_reports = [] };
          send_chs = s.send_chs;
          alg = alg;
          sent = s.sent ++ out;
        }

    -- With no counted message the routine blocks on `recvCh` instead of leaving the inner loop.
    unfoldable pub step : Service S R Sig Alg → Event S R Sig → Service S R Sig Alg
    step s (arrives msg) = record s { table = receive msg s.table }
    step s drained = if ltb 0 s.table.recv_count then proceed s else s
    step s (connects sig) = record s { send_chs = put sig_discrete sig tt s.send_chs }
    step s (exits sig) = record s { send_chs = del sig_discrete sig s.send_chs }

    unfoldable pub run : Service S R Sig Alg → List (Event S R Sig) → Service S R Sig Alg
    run s [] = s
    run s (e ∷ es) = run (step s e) es

    unfoldable pub new_service : Alg → Service S R Sig Alg
    new_service alg = record {
      table = record {
        where_to_send = new_relation String-discrete sig_discrete;
        latest_status = [];
        recv_count = 0;
        saved_reports = [];
      };
      send_chs = [];
      alg = alg;
      sent = [];
    }
