-- ===== src/Tests/Services.antt =====
-- Runs of util/setmap.go and pkg/isglb/service.go. A status is a name with a version, a report is
-- a text, a stream is a number, and the algorithm asks for version 7 of everything.
use dion.Prelude.{
  ℕ, ◌+◌, true, false, List, [], ◌∷◌, ◌++◌, String, String-discrete, Bool-cases, ◌≡◌, ◌≢◌, ◌⊎◌, ◌↔◌,
  refl, none, some, All, map, ℕ_discrete,
}
use dion.Prelude.GoMap.{GoMap, get, put, del}
use dion.Proto.{Message}
use dion.Util.SetMap.{
  exists, get_unique_keys, new_relation, new_set_map, add, remove, add_pair, get_set,
}
use dion.Util.SetMap.Laws.{member}
use dion.Util.SetMap.Relation.{
  Call, adds, removes, removes_key, run as run_calls, expected_all, run-expected,
}
use dion.Util.SetMap.Unique.{get_unique_keys_iff}
use dion.Isglb.Service.{
  Service, Event, arrives, drained, connects, report, status, run, new_service, proceed, forget_sig,
  send_each, send_one, step, receive, save_request, save_report, save_status, unchanged,
  send_target, expected_dict,
}
use dion.Isglb.Service.Forget.{Inv, streams, forget_sig_cases}
use dion.Isglb.Service.Send.{IsDue}
use dion.Isglb.Service.Receive.{run_new-Inv, proceed-IsDue}
use dion.Tests.Sets.{versioned, versioned-Lawful}

abbrev calls : List (Call String ℕ)
calls = adds "a" 1 ∷ adds "a" 2 ∷ adds "b" 2 ∷ removes "a" 2 ∷ removes_key "c" ∷ []

run-expected_example :
    (exists String-discrete ℕ_discrete
        (run_calls String-discrete ℕ_discrete
          (new_relation String-discrete ℕ_discrete)
          calls).forward
        "a"
        1
      ≡ expected_all String-discrete ℕ_discrete calls "a" 1 false)
    × (exists ℕ_discrete String-discrete
          (run_calls String-discrete ℕ_discrete
            (new_relation String-discrete ℕ_discrete)
            calls).reverse
          1
          "a"
        ≡ expected_all String-discrete ℕ_discrete calls "a" 1 false)
run-expected_example = run-expected String-discrete ℕ_discrete calls "a" 1

get_unique_keys_iff_example :
    let r = run_calls String-discrete ℕ_discrete (new_relation String-discrete ℕ_discrete) calls in
    (member String-discrete "b" (get_unique_keys String-discrete ℕ_discrete r 2) ≡ true) ↔ (
      (exists ℕ_discrete String-discrete r.reverse 2 "b" ≡ true)
      × ((w : ℕ) → exists ℕ_discrete String-discrete r.reverse w "b" ≡ true → w ≡ 2))
get_unique_keys_iff_example = get_unique_keys_iff String-discrete ℕ_discrete calls "b" 2

abbrev texts : Message String
texts = record { text = λ s. s; clone = λ s. s; clone_lem = λ s. refl }

abbrev raise : ℕ → List (String × ℕ) → List String → List (String × ℕ) × ℕ
raise n statuses reports = (map (λ s. (s.0, 7)) statuses, n + 1)

abbrev events : List (Event (String × ℕ) String ℕ)
events =
    connects 1
    ∷ connects 2
    ∷ arrives (record { request = some (status ("n1", 1)); sigkey = some 1; deleted = none })
    ∷ arrives (record { request = some (status ("n2", 1)); sigkey = some 2; deleted = none })
    ∷ arrives (record { request = some (status ("n2", 1)); sigkey = some 1; deleted = none })
    ∷ arrives (record { request = some (report "slow"); sigkey = some 2; deleted = none })
    ∷ []

abbrev busy : Service (String × ℕ) String ℕ ℕ
busy = run versioned texts ℕ_discrete raise (new_service versioned texts ℕ_discrete raise 0) events

-- The run sends both nodes their new status, and the second round has nothing to send.
sent_run :
    (run versioned texts ℕ_discrete raise busy (drained ∷ drained ∷ [])).sent
    ≡ (1, ("n1", 7)) ∷ (2, ("n2", 7)) ∷ []
unfolding get put del run step receive save_request save_report save_status unchanged new_service
    new_relation new_set_map add_pair add remove exists get_set send_target send_one send_each
    expected_dict proceed Bool-cases String-discrete ℕ_discrete
sent_run = refl

run_new-Inv_example : Inv versioned ℕ_discrete busy.table
run_new-Inv_example = run_new-Inv versioned texts ℕ_discrete versioned-Lawful raise 0 events

forget_sig_cases_example :
    ((get String-discrete "n2" (forget_sig versioned texts ℕ_discrete 2 busy.table).latest_status
        ≡ get String-discrete "n2" busy.table.latest_status)
      × ((w : ℕ) × (w ≢ 2) × (streams versioned texts ℕ_discrete busy.table "n2" w ≡ true)))
    ⊎ ((get String-discrete "n2" (forget_sig versioned texts ℕ_discrete 2 busy.table).latest_status
          ≡ none)
        × ((w : ℕ) → streams versioned texts ℕ_discrete busy.table "n2" w ≡ true → w ≡ 2))
forget_sig_cases_example =
    forget_sig_cases versioned texts ℕ_discrete 2 busy.table "n2"
      (run_new-Inv versioned texts ℕ_discrete versioned-Lawful raise 0 events)

proceed-IsDue_example :
    (out : List (ℕ × (String × ℕ))) × ((proceed versioned texts ℕ_discrete raise busy).sent
      ≡ busy.sent ++ out)
    × All
        (IsDue versioned texts ℕ_discrete busy.table.where_to_send busy.send_chs
          busy.table.latest_status
          (λ nid.
            get String-discrete nid
              (proceed versioned texts ℕ_discrete raise busy).table.latest_status))
        out
proceed-IsDue_example = proceed-IsDue versioned texts ℕ_discrete versioned-Lawful raise busy

abbrev wanted : GoMap String (String × ℕ)
wanted = ("n1", ("n1", 7)) ∷ ("n3", ("n3", 7)) ∷ []
