-- ===== src/Sfu/Candidates/InOrder.antt =====
-- The candidates of a handler of messages (pkg/sfu/trickle.go, pkg/sfu/negotiate.go).
use mathlib.Core.List.{append-nil, append_assoc}
use dion.Prelude.{
  Bool, true, false, Option, none, some, List, [], ◌∷◌, ◌++◌, ◌≡◌, refl, sym, ap, ◌∙◌, subst,
  String, String-discrete, holds, if◌then◌else◌,
}
use dion.Sfu.Messages.{
  Description, Target, publisher, subscriber, ErrorCode, Reply, join_reply, description_reply,
  trickle_reply, track_event, subscription_reply, error_reply, unknown_reply,
}
use dion.Sfu.Replies.{Answer, answered, refuses}
use dion.Sfu.Candidates.{
  PeerConnection, Keeps, Handled, handled, panics, fails, Handler, new_handler, refreshed,
  add_waiting, add_or_wait, subscriber_trickle, publisher_trickle, answer_set, answer_made,
  offer_set, subscriber_negotiate, description_set, publisher_negotiate, subscriber_handle,
  take_answer, publisher_handle, subscriber_run, publisher_run,
}

-- The candidate of a message for a target.
abbrev pub candidate_for : {C : Type 0} → (String → C) → Target → Reply → List C
candidate_for parse subscriber (trickle_reply init subscriber) = parse init ∷ []
candidate_for parse publisher (trickle_reply init publisher) = parse init ∷ []
candidate_for parse target r = []

-- The candidates of the messages for a target.
unfoldable pub candidates_for : {C : Type 0} → (String → C) → Target → List Reply → List C
candidates_for parse target [] = []
candidates_for parse target (r ∷ rs) =
    candidate_for parse target r ++ candidates_for parse target rs

unfoldable pub replies : List (Reply × Option String) → List Reply
replies [] = []
replies ((r, result) ∷ rest) = r ∷ replies rest

module _ {S C : Type 0} (conn : PeerConnection S C) (keeps : Keeps conn) where
  -- The connection was given the candidates that came, but those that wait, in their order; none
  -- waits where a description is set.
  abbrev pub IsInOrder : Handler S C → List C → Type 0
  IsInOrder h seen =
      (h.added ++ h.candidates ≡ seen) × (conn.described h.pc ≡ true → h.candidates ≡ [])

  add_or_wait-IsInOrder :
      (b : Bool) (c : C) (h : Handler S C) (seen : List C)
      → conn.described h.pc ≡ b
      → IsInOrder h seen
      → IsInOrder (add_or_wait conn b c h) (seen ++ c ∷ [])
  add_or_wait-IsInOrder false c h seen e (o, w) =
      (sym (append_assoc h.added h.candidates (c ∷ [])) ∙ ap (λ l. l ++ c ∷ []) o, λ d. absurd (cc))
  add_or_wait-IsInOrder true c h seen e (o, w) =
      (append_one h.added h.candidates seen (w e) o, λ d. w e)
    where
      append_one :
          (xs ys zs : List C) → ys ≡ [] → xs ++ ys ≡ zs → (xs ++ c ∷ []) ++ ys ≡ zs ++ c ∷ []
      append_one xs ys zs p q =
          rw (p, append-nil (xs ++ c ∷ []))
            (ap (λ l. l ++ c ∷ []) (sym (append-nil xs) ∙ subst (λ l. xs ++ l ≡ zs) p q))

  -- A description that is refused.
  refused-IsInOrder :
      (d : Description) (e : String) (h : Handler S C) (seen : List C)
      → (conn.set_remote d h.pc).1 ≡ some e
      → IsInOrder h seen
      → IsInOrder (record h { pc = (conn.set_remote d h.pc).0 }) seen
  refused-IsInOrder d e h seen q (o, w) = (o, λ x. w (sym (keeps.refused d h.pc e q) ∙ x))

  answer_set-IsInOrder :
      (result : Option String) (a : Description) (r : S × Option String) (h : Handler S C)
      (seen : List C)
      → h.added ++ h.candidates ≡ seen
      → h.candidates ≡ []
      → IsInOrder (answer_set conn result a r h).0 seen
  answer_set-IsInOrder result a (pc, some e) h seen o n = (o, λ x. n)
  answer_set-IsInOrder result a (pc, none) h seen o n = (o, λ x. n)

  answer_made-IsInOrder :
      (result : Option String) (r : S × Answer) (h : Handler S C) (seen : List C)
      → h.added ++ h.candidates ≡ seen
      → h.candidates ≡ []
      → IsInOrder (answer_made conn result r h).0 seen
  answer_made-IsInOrder result (pc, refuses e) h seen o n = (o, λ x. n)
  answer_made-IsInOrder result (pc, answered d) h seen o n =
      answer_set-IsInOrder result d (conn.set_local d pc) h seen o n

  offer_set-IsInOrder :
      (result : Option String) (d : Description) (r : S × Option String) (h : Handler S C)
      (seen : List C)
      → conn.set_remote d h.pc ≡ r
      → IsInOrder h seen
      → IsInOrder (offer_set conn result r h).0 seen
  offer_set-IsInOrder result d (pc, some e) h seen q i =
      subst (λ x. IsInOrder (record h { pc = x }) seen) (ap (λ r. r.0) q)
        (refused-IsInOrder d e h seen (ap (λ r. r.1) q) i)
  offer_set-IsInOrder result d (pc, none) h seen q (o, w) =
      let v = add_waiting conn pc h in
      answer_made-IsInOrder result (conn.create_answer v.pc) v seen
        (append-nil (h.added ++ h.candidates) ∙ o) refl

  description_set-IsInOrder :
      (d : Description) (r : S × Option String) (h : Handler S C) (seen : List C)
      → conn.set_remote d h.pc ≡ r
      → IsInOrder h seen
      → IsInOrder (description_set conn r h).0 seen
  description_set-IsInOrder d (pc, some e) h seen q i =
      subst (λ x. IsInOrder (record h { pc = x }) seen) (ap (λ r. r.0) q)
        (refused-IsInOrder d e h seen (ap (λ r. r.1) q) i)
  description_set-IsInOrder d (pc, none) h seen q (o, w) =
      (append-nil (h.added ++ h.candidates) ∙ o, λ x. refl)

  choice-IsInOrder :
      (b : Bool) (x y : Handler S C × Handled) (seen : List C)
      → IsInOrder x.0 seen
      → IsInOrder y.0 seen
      → IsInOrder (if b then x else y).0 seen
  choice-IsInOrder true x y seen i j = i
  choice-IsInOrder false x y seen i j = j

  refreshed-IsInOrder :
      (r : Handler S C × Handled) (seen : List C)
      → IsInOrder r.0 seen
      → IsInOrder (refreshed r) seen
  refreshed-IsInOrder (h, handled) seen i = i
  refreshed-IsInOrder (h, panics) seen i = i
  refreshed-IsInOrder (h, fails e) seen i = i

  -- A message without a candidate.
  unseen : (h : Handler S C) (seen : List C) → IsInOrder h seen → IsInOrder h (seen ++ [])
  unseen h seen i = subst (IsInOrder h) (sym (append-nil seen)) i

  module _ (parse : String → C) (error_text : Option (ErrorCode × String) → String) where
    subscriber_handle-IsInOrder :
        (r : Reply) (result : Option String) (h : Handler S C) (seen : List C)
        → IsInOrder h seen
        → IsInOrder
            (subscriber_handle conn parse error_text r result h).0
            (seen ++ candidate_for parse subscriber r)
    unfolding subscriber_handle subscriber_negotiate subscriber_trickle
    subscriber_handle-IsInOrder (join_reply true err d) result h seen i = unseen h seen i
    subscriber_handle-IsInOrder (join_reply false err d) result h seen i = unseen h seen i
    subscriber_handle-IsInOrder (description_reply target d) result h seen i =
        choice-IsInOrder (holds (String-discrete d.kind "offer"))
          (subscriber_negotiate conn result d h) (h, handled) (seen ++ [])
          (offer_set-IsInOrder result d (conn.set_remote d h.pc) h (seen ++ []) refl
            (unseen h seen i))
          (unseen h seen i)
    subscriber_handle-IsInOrder (trickle_reply init publisher) result h seen i = unseen h seen i
    subscriber_handle-IsInOrder (trickle_reply init subscriber) result h seen i =
        add_or_wait-IsInOrder (conn.described h.pc) (parse init) h seen refl i
    subscriber_handle-IsInOrder (track_event uid tracks state) result h seen i = unseen h seen i
    subscriber_handle-IsInOrder (subscription_reply true err) result h seen i = unseen h seen i
    subscriber_handle-IsInOrder (subscription_reply false err) result h seen i = unseen h seen i
    subscriber_handle-IsInOrder (error_reply code reason) result h seen i = unseen h seen i
    subscriber_handle-IsInOrder unknown_reply result h seen i = unseen h seen i

    take_answer-IsInOrder :
        (d : Description) (h : Handler S C) (seen : List C)
        → IsInOrder h seen
        → IsInOrder (take_answer conn parse error_text d h).0 (seen ++ [])
    unfolding publisher_negotiate
    take_answer-IsInOrder d h seen i =
        choice-IsInOrder (holds (String-discrete d.kind "answer")) (publisher_negotiate conn d h)
          (h, handled) (seen ++ [])
          (description_set-IsInOrder d (conn.set_remote d h.pc) h (seen ++ []) refl
            (unseen h seen i))
          (unseen h seen i)

    publisher_handle-IsInOrder :
        (r : Reply) (h : Handler S C) (seen : List C)
        → IsInOrder h seen
        → IsInOrder
            (publisher_handle conn parse error_text r h).0
            (seen ++ candidate_for parse publisher r)
    unfolding publisher_handle publisher_trickle
    publisher_handle-IsInOrder (join_reply true err none) h seen i = unseen h seen i
    publisher_handle-IsInOrder (join_reply true err (some (target, d))) h seen i =
        take_answer-IsInOrder d h seen i
    publisher_handle-IsInOrder (join_reply false err d) h seen i = unseen h seen i
    publisher_handle-IsInOrder (description_reply target d) h seen i =
        take_answer-IsInOrder d h seen i
    publisher_handle-IsInOrder (trickle_reply init subscriber) h seen i = unseen h seen i
    publisher_handle-IsInOrder (trickle_reply init publisher) h seen i =
        add_or_wait-IsInOrder (conn.described h.pc) (parse init) h seen refl i
    publisher_handle-IsInOrder (track_event uid tracks state) h seen i = unseen h seen i
    publisher_handle-IsInOrder (subscription_reply success err) h seen i = unseen h seen i
    publisher_handle-IsInOrder (error_reply code reason) h seen i = unseen h seen i
    publisher_handle-IsInOrder unknown_reply h seen i = unseen h seen i

    subscriber_messages :
        (h : Handler S C) (rs : List (Reply × Option String)) (seen : List C)
        → IsInOrder h seen
        → IsInOrder
            (subscriber_run conn parse error_text h rs)
            (seen ++ candidates_for parse subscriber (replies rs))
    unfolding subscriber_run replies candidates_for
    subscriber_messages h [] seen i = unseen h seen i
    subscriber_messages h ((r, result) ∷ rest) seen i =
        let p = subscriber_handle conn parse error_text r result h in
        subst (IsInOrder (subscriber_run conn parse error_text (refreshed p) rest))
          (append_assoc seen (candidate_for parse subscriber r)
            (candidates_for parse subscriber (replies rest)))
          (subscriber_messages (refreshed p) rest (seen ++ candidate_for parse subscriber r) (
            refreshed-IsInOrder p (seen ++ candidate_for parse subscriber r)
              (subscriber_handle-IsInOrder r result h seen i)))

    publisher_messages :
        (h : Handler S C) (rs : List Reply) (seen : List C)
        → IsInOrder h seen
        → IsInOrder
            (publisher_run conn parse error_text h rs)
            (seen ++ candidates_for parse publisher rs)
    unfolding publisher_run candidates_for
    publisher_messages h [] seen i = unseen h seen i
    publisher_messages h (r ∷ rest) seen i =
        let p = publisher_handle conn parse error_text r h in
        subst (IsInOrder (publisher_run conn parse error_text (refreshed p) rest))
          (append_assoc seen (candidate_for parse publisher r)
            (candidates_for parse publisher rest))
          (publisher_messages (refreshed p) rest (seen ++ candidate_for parse publisher r) (
            refreshed-IsInOrder p (seen ++ candidate_for parse publisher r)
              (publisher_handle-IsInOrder r h seen i)))

    -- Where a candidate and a refused description leave the description of a connection that is set:
    -- whatever a subscriber receives, its connection was given the candidates for a subscriber in the
    -- order in which they came, but the last ones, which wait; none waits once a description is set.
    pub subscriber_run-IsInOrder :
        (pc : S) (rs : List (Reply × Option String))
        → IsInOrder
            (subscriber_run conn parse error_text (new_handler pc) rs)
            (candidates_for parse subscriber (replies rs))
    unfolding new_handler
    subscriber_run-IsInOrder pc rs = subscriber_messages (new_handler pc) rs [] (refl, λ d. refl)

    -- Where a candidate and a refused description leave the description of a connection that is set:
    -- whatever a publisher receives, its connection was given the candidates for a publisher in the
    -- order in which they came, but the last ones, which wait; none waits once a description is set.
    pub publisher_run-IsInOrder :
        (pc : S) (rs : List Reply)
        → IsInOrder
            (publisher_run conn parse error_text (new_handler pc) rs)
            (candidates_for parse publisher rs)
    unfolding new_handler
    publisher_run-IsInOrder pc rs = publisher_messages (new_handler pc) rs [] (refl, λ d. refl)
