-- ===== src/Isglb/Service/Receive.antt =====
-- The invariant of pkg/isglb/service.go through messages, rounds of sending and streams that come
-- and go, and what a message changes.
use mathlib.Core.Path.{fun_ext}
use dion.Prelude.{
  true, ◌&&◌, ◌||◌, Option, none, some, List, [], ◌∷◌, ◌++◌, ◌≡◌, sym, ap, subst, ◌∙◌, arith,
  String, String-discrete, holds, is_some, if◌then◌else◌, Option-cases, Bool-cases, inl, inr, All,
  ltb,
}
use dion.Prelude.GoMap.{GoMap, get, put, get-put, Distinct, put-Distinct, values}
use dion.Proto.{Message}
use dion.Util.Set.{Item, Lawful}
use dion.Util.SetMap.{add_pair}
use dion.Util.SetMap.Relation.{
  adds, apply, expected, apply_cases, apply-Agrees, new_relation_empty, new_relation-Agrees,
}
use dion.Util.SetMap.Unique.{apply-IsTidy, new_relation-IsTidy}
use dion.Isglb.Service.{
  Table, Service, RecvMessage, SyncRequest, Event, arrives, drained, connects, exits, unset, report,
  status, unchanged, send_target, expected_dict, save_report, save_status, save_request,
  forget_deleted, save_opt, receive, clones, proceed, step, run, new_service,
}
use dion.Isglb.Service.Forget.{IsFiled, Inv, streams, forget_sig-Inv}
use dion.Isglb.Service.Send.{
  put-IsFiled, expected_dict-IsFiled, expected_dict-Distinct, send_target-exists, remembered,
  outgoing, send_each-out, send_each-latest, send_each-Stored, IsDue, send_each-IsDue,
}

module _ {S R Sig : Type 0} (item : Item S) (report_message : Message R)
    (sig_discrete : Discrete Sig) (law : Lawful item) where
  open item use {key, clone}

  abbrev IsOk : Table S R Sig → Type 0
  IsOk = Inv item sig_discrete

  save_report-Inv :
      (r : R) (t : Table S R Sig) → IsOk t → IsOk (save_report item report_message sig_discrete r t)
  unfolding save_report
  save_report-Inv r t v =
      elim (Bool-cases (is_some (get String-discrete (report_message.text r) t.saved_reports))) [
        | inl e ↦ rw (save_report, e) v
        | inr e ↦
            rw (save_report, e)
              (record {
                agrees = v.agrees;
                tidy = v.tidy;
                filed = v.filed;
                distinct = v.distinct;
                has_stream = v.has_stream;
                has_status = v.has_status;
              })
      ]

  -- The statuses after a reported one.
  abbrev latest_after : S → GoMap String S → GoMap String S
  latest_after s m =
      if unchanged item m (key s) s then m else put String-discrete (key s) (clone s) m

  save_status-parts :
      (s : S) (sig : Sig) (t : Table S R Sig)
      → ((save_status item report_message sig_discrete s sig t).where_to_send
          ≡ add_pair String-discrete sig_discrete t.where_to_send (key s) sig)
        × ((save_status item report_message sig_discrete s sig t).latest_status
            ≡ latest_after s t.latest_status)
  unfolding save_status
  save_status-parts s sig t = ground arith

  save_status-streams :
      (s : S) (sig : Sig) (t : Table S R Sig) (nid : String) (v : Sig)
      → IsOk t
      → streams item report_message sig_discrete
          (save_status item report_message sig_discrete s sig t)
          nid
          v
        ≡ (holds (String-discrete (key s) nid) && holds (sig_discrete sig v))
          || streams item report_message sig_discrete t nid v
  unfolding apply expected
  save_status-streams s sig t nid v i =
      rw (save_status-parts s sig t).0
        (apply_cases String-discrete sig_discrete t.where_to_send (adds (key s) sig) nid v
          i.agrees).0

  latest_after-get :
      (s : S) (m : GoMap String S) (nid : String)
      → is_some (get String-discrete nid (latest_after s m))
        ≡ holds (String-discrete (key s) nid) || is_some (get String-discrete nid m)
  unfolding unchanged
  latest_after-get s m nid = ground (arith, get-put String-discrete nid (key s) (clone s) m)

  latest_after-Stored :
      (s : S) (m : GoMap String S)
      → IsFiled item m × Distinct String-discrete m
      → IsFiled item (latest_after s m) × Distinct String-discrete (latest_after s m)
  latest_after-Stored s m h = ground (
    arith,
    put-IsFiled item (key s) (clone s) m (ap key (law.clone_lem s)) h.0,
    put-Distinct String-discrete (key s) (clone s) m h.1,
  )

  save_status-has_stream :
      (s : S) (sig : Sig) (t : Table S R Sig) (nid : String)
      → IsOk t
      → is_some (
          get String-discrete nid
            (save_status item report_message sig_discrete s sig t).latest_status)
        ≡ true
      → (w : Sig) × (streams item report_message sig_discrete
            (save_status item report_message sig_discrete s sig t)
            nid
            w
          ≡ true)
  save_status-has_stream s sig t nid v e = elim (String-discrete (key s) nid) [
    | yes p ↦ (sig, ground (arith, save_status-streams s sig t nid sig v))
    | no n ↦
        let (w, h) =
          v.has_stream nid (
            ground
              (arith, (save_status-parts s sig t).1, latest_after-get s t.latest_status nid)) in
        (w, ground (arith, h, save_status-streams s sig t nid w v))
  ]

  save_status-has_status :
      (s : S) (sig : Sig) (t : Table S R Sig) (nid : String) (w : Sig)
      → IsOk t
      → streams item report_message sig_discrete
          (save_status item report_message sig_discrete s sig t)
          nid
          w
        ≡ true
      → is_some (
          get String-discrete nid
            (save_status item report_message sig_discrete s sig t).latest_status)
        ≡ true
  save_status-has_status s sig t nid w v e = ground (
    arith,
    (save_status-parts s sig t).1,
    latest_after-get s t.latest_status nid,
    save_status-streams s sig t nid w v,
    v.has_status nid w,
  )

  save_status-Inv :
      (s : S) (sig : Sig) (t : Table S R Sig)
      → IsOk t
      → IsOk (save_status item report_message sig_discrete s sig t)
  unfolding apply
  save_status-Inv s sig t v =
      let (relation, latest) = save_status-parts s sig t in
      record {
        agrees =
            rw relation (
              apply-Agrees String-discrete sig_discrete t.where_to_send (adds (key s) sig)
                v.agrees);
        tidy =
            rw relation
              (apply-IsTidy String-discrete sig_discrete t.where_to_send (adds (key s) sig) v.tidy);
        filed = rw latest (latest_after-Stored s t.latest_status (v.filed, v.distinct)).0;
        distinct = rw latest (latest_after-Stored s t.latest_status (v.filed, v.distinct)).1;
        has_stream = λ nid e. save_status-has_stream s sig t nid v e;
        has_status = λ nid w e. save_status-has_status s sig t nid w v e;
      }

  save_request-Inv :
      (q : SyncRequest S R) (sig : Sig) (t : Table S R Sig)
      → IsOk t
      → IsOk (save_request item report_message sig_discrete q sig t)
  unfolding save_request
  save_request-Inv unset sig t v = v
  save_request-Inv (report r) sig t v = save_report-Inv r t v
  save_request-Inv (status s) sig t v = save_status-Inv s sig t v

  forget_deleted-Inv :
      (sig : Option Sig) (t : Table S R Sig)
      → IsOk t
      → IsOk (forget_deleted item report_message sig_discrete sig t)
  forget_deleted-Inv none t v = v
  forget_deleted-Inv (some sig) t v = forget_sig-Inv item report_message sig_discrete sig t v

  -- Every message keeps the invariant of the tables.
  pub receive-Inv :
      (msg : RecvMessage S R Sig) (t : Table S R Sig)
      → IsOk t
      → IsOk (receive item report_message sig_discrete msg t)
  unfolding receive
  receive-Inv msg t v = saved msg.request msg.sigkey (forget_deleted-Inv msg.deleted t v)
    where
      saved :
          (q : Option (SyncRequest S R)) (sig : Option Sig)
          → IsOk (forget_deleted item report_message sig_discrete msg.deleted t)
          → IsOk (
              save_opt item report_message sig_discrete q sig
                (forget_deleted item report_message sig_discrete msg.deleted t))
      saved (some q) (some sig) w = save_request-Inv q sig _ w
      saved (some q) none w = w
      saved none (some sig) w = w
      saved none none w = w

  -- Sending changes no node's having a status.
  remembered-is_some :
      (t : Table S R Sig) (chs : GoMap Sig (Unit {0})) (dict : GoMap String S) (nid : String)
      → IsOk t
      → is_some
          (remembered item report_message sig_discrete t.where_to_send chs t.latest_status dict nid)
        ≡ is_some (get String-discrete nid t.latest_status)
  unfolding remembered
  remembered-is_some t chs dict nid v =
      elim (Option-cases (send_target sig_discrete t.where_to_send chs nid)) [
        | inl e ↦ ground arith
        | inr (sig, e) ↦ ground (
          arith,
          v.has_status nid sig (send_target-exists sig_discrete chs t.where_to_send nid sig e).0,
        )
      ]

  module _ {Alg : Type 0} (update_sfu_status : Alg → List S → List R → List S × Alg) where
    abbrev expected_of : Service S R Sig Alg → GoMap String S
    expected_of s =
        expected_dict item
          (update_sfu_status s.alg (clones item s.table.latest_status)
            (values s.table.saved_reports)).0
          []

    sent-is_some :
        (s : Service S R Sig Alg) (nid : String)
        → IsOk s.table
        → is_some (
            get String-discrete nid
              (proceed item report_message sig_discrete update_sfu_status s).table.latest_status)
          ≡ is_some (get String-discrete nid s.table.latest_status)
    unfolding proceed
    sent-is_some s nid v =
        let t = s.table in
        let dict = expected_of s in
        ap is_some (
          send_each-latest item report_message sig_discrete t.where_to_send s.send_chs
            t.latest_status dict [] nid (expected_dict-Distinct item _ [] tt))
        ∙ remembered-is_some t s.send_chs dict nid v

    pub proceed-Inv :
        (s : Service S R Sig Alg)
        → IsOk s.table
        → IsOk (proceed item report_message sig_discrete update_sfu_status s).table
    unfolding proceed
    proceed-Inv s v =
        let t = s.table in
        let stored =
          send_each-Stored item report_message sig_discrete t.where_to_send s.send_chs
            t.latest_status (expected_of s) [] (expected_dict-IsFiled item law _ [] tt)
            (v.filed, v.distinct) in
        record {
          agrees = v.agrees;
          tidy = v.tidy;
          filed = stored.0;
          distinct = stored.1;
          has_stream = λ nid e. v.has_stream nid (sym (sent-is_some s nid v) ∙ e);
          has_status = λ nid w e. sent-is_some s nid v ∙ v.has_status nid w e;
        }

    step-Inv :
        (s : Service S R Sig Alg) (e : Event S R Sig)
        → IsOk s.table
        → IsOk (step item report_message sig_discrete update_sfu_status s e).table
    unfolding step
    step-Inv s (arrives msg) v = receive-Inv msg s.table v
    step-Inv s drained v = elim (Bool-cases (ltb 0 s.table.recv_count)) [
      | inl e ↦ rw e (proceed-Inv s v)
      | inr e ↦ rw e v
    ]
    step-Inv s (connects sig) v = v
    step-Inv s (exits sig) v = v

    run-Inv :
        (s : Service S R Sig Alg) (es : List (Event S R Sig))
        → IsOk s.table
        → IsOk (run item report_message sig_discrete update_sfu_status s es).table
    unfolding run
    run-Inv s [] v = v
    run-Inv s (e ∷ es) v =
        run-Inv (step item report_message sig_discrete update_sfu_status s e) es (step-Inv s e v)

    new_service-Inv :
        (alg : Alg)
        → IsOk (new_service item report_message sig_discrete update_sfu_status alg).table
    unfolding new_service get
    new_service-Inv alg = record {
      agrees = new_relation-Agrees String-discrete sig_discrete;
      tidy = new_relation-IsTidy String-discrete sig_discrete;
      filed = tt;
      distinct = tt;
      has_stream = λ nid e. absurd (cc);
      has_status = λ nid w e. cc ((new_relation_empty String-discrete sig_discrete nid w).0);
    }

    -- In every state that the service reaches, the two directions of its routing table agree, no
    -- node has two statuses or a status of another node, and a node has a status exactly if it has
    -- a stream.
    pub run_new-Inv :
        (alg : Alg) (es : List (Event S R Sig))
        → IsOk
            (run item report_message sig_discrete update_sfu_status
              (new_service item report_message sig_discrete update_sfu_status alg)
              es).table
    run_new-Inv alg es = run-Inv _ es (new_service-Inv alg)

    -- One round of sending: every status that is sent goes to a stream of its own node whose channel
    -- is open, differs from the one stored before, and is stored afterwards.
    pub proceed-IsDue :
        (s : Service S R Sig Alg)
        → (out : List (Sig × S)) × ((proceed item report_message sig_discrete update_sfu_status
              s).sent
            ≡ s.sent ++ out)
          × All
              (IsDue item report_message sig_discrete s.table.where_to_send s.send_chs
                s.table.latest_status
                (λ nid.
                  get String-discrete nid
                    (proceed item report_message sig_discrete update_sfu_status
                      s).table.latest_status))
              out
    unfolding proceed
    proceed-IsDue s =
        let t = s.table in
        let dict = expected_of s in
        let d =
          expected_dict-Distinct item
            (update_sfu_status s.alg (clones item t.latest_status) (values t.saved_reports)).0 []
            tt in
        (
          outgoing item report_message sig_discrete t.where_to_send s.send_chs t.latest_status dict,
          ap (λ x. s.sent ++ x)
              (send_each-out item report_message sig_discrete t.where_to_send s.send_chs
                t.latest_status dict [] d),
          subst
              (λ f.
                All
                  (IsDue item report_message sig_discrete t.where_to_send s.send_chs t.latest_status
                    f)
                  (outgoing item report_message sig_discrete t.where_to_send s.send_chs
                    t.latest_status dict))
              (fun_ext (λ nid. sym (
                send_each-latest item report_message sig_discrete t.where_to_send s.send_chs
                  t.latest_status dict [] nid d)))
              (send_each-IsDue item report_message sig_discrete t.where_to_send s.send_chs
                t.latest_status dict (expected_dict-IsFiled item law _ [] tt) d),
        )
