-- ===== src/Sxu/Receivers/Answered.antt =====
-- What an `RTC` object that goes on has done (pkg/sxu/rtc/receivers.go).
use mathlib.Core.List.{append-nil, append_assoc}
use dion.Prelude.{
  Bool, true, false, Option, none, some, List, [], ◌∷◌, ◌++◌, ◌≡◌, refl, sym, ap, ◌∙◌, String,
  String-discrete, holds, if◌then◌else◌,
}
use dion.Sfu.Messages.{
  ErrorCode, join_reply, description_reply, trickle_reply, track_event, subscription_reply,
  error_reply, unknown_reply, Request, join_request,
}
use dion.Sfu.Replies.{Answer, answered, refuses}
use dion.Sfu.Requests.{send_answer, rtc_join}
use dion.Sxu.Receivers.{
  eof, canceled, fails, Received, message, ends, Rtc, new_rtc, rtc_trickle, rtc_negotiate,
  rtc_handle, rtc_end, receive_one, on_signal_handle, rtc_run,
}

-- The candidate of a message.
abbrev pub candidate_of : {C : Type 0} → (String → C) → Received → List C
candidate_of parse (message (trickle_reply init target) a result) = parse init ∷ []
candidate_of parse x = []

abbrev pub answers_for : Bool → Answer → List Request
answers_for true (answered d) = send_answer d ∷ []
answers_for b a = []

-- The answer that is due for a message: the local peer's, for an offer.
abbrev pub answer_of : Received → List Request
answer_of (message (description_reply target d) a result) =
    answers_for (holds (String-discrete d.kind "offer")) a
answer_of x = []

unfoldable pub candidates_of : {C : Type 0} → (String → C) → List Received → List C
candidates_of parse [] = []
candidates_of parse (x ∷ rest) = candidate_of parse x ++ candidates_of parse rest

unfoldable pub answers_of : List Received → List Request
answers_of [] = []
answers_of (x ∷ rest) = answer_of x ++ answers_of rest

module _ {C : Type 0} (parse : String → C) (error_text : Option (ErrorCode × String) → String) where
  -- From one state to another one: what was given to the peer and what was sent.
  abbrev Does : Rtc C → Rtc C → List C → List Request → Type 0
  Does r v cs rs =
      (v.returned ≡ none)
      → (v.added ≡ r.added ++ cs) × (v.sent ≡ r.sent ++ rs) × (v.closed ≡ r.closed)

  nothing-Does : (r : Rtc C) → Does r r [] []
  nothing-Does r e = (sym (append-nil r.added), sym (append-nil r.sent), refl)

  negotiate-Does :
      (b : Bool) (a : Answer) (result : Option String) (r : Rtc C)
      → Does r (if b then rtc_negotiate parse error_text a result r else r) [] (answers_for b a)
  unfolding rtc_negotiate
  negotiate-Does true (refuses e) result r q = absurd (cc)
  negotiate-Does true (answered d) none r q = (sym (append-nil r.added), refl, refl)
  negotiate-Does true (answered d) (some e) r q = absurd (cc)
  negotiate-Does false a result r q = (sym (append-nil r.added), sym (append-nil r.sent), refl)

  trickle-Does :
      (init : String) (result : Option String) (r : Rtc C)
      → Does r (rtc_trickle parse error_text init result r) (parse init ∷ []) []
  unfolding rtc_trickle
  trickle-Does init none r q = (refl, sym (append-nil r.sent), refl)
  trickle-Does init (some e) r q = absurd (cc)

  receive_one-Does :
      (x : Received) (r : Rtc C)
      → Does r (receive_one parse error_text x r) (candidate_of parse x) (answer_of x)
  unfolding rtc_handle rtc_end
  receive_one-Does (message (join_reply true err d) a result) r q = nothing-Does r q
  receive_one-Does (message (join_reply false err d) a result) r q = absurd (cc)
  receive_one-Does (message (description_reply target d) a result) r q =
      negotiate-Does (holds (String-discrete d.kind "offer")) a result r q
  receive_one-Does (message (trickle_reply init target) a result) r q = trickle-Does init result r q
  receive_one-Does (message (track_event uid tracks state) a result) r q = nothing-Does r q
  receive_one-Does (message (subscription_reply true err) a result) r q = nothing-Does r q
  receive_one-Does (message (subscription_reply false err) a result) r q = absurd (cc)
  receive_one-Does (message (error_reply code reason) a result) r q = absurd (cc)
  receive_one-Does (message unknown_reply a result) r q = nothing-Does r q
  receive_one-Does (ends eof) r q = absurd (cc)
  receive_one-Does (ends canceled) r q = absurd (cc)
  receive_one-Does (ends (fails e)) r q = absurd (cc)

  then-Does :
      (o : Option String) (r v w : Rtc C) (cs cs' : List C) (rs rs' : List Request)
      → v.returned ≡ o
      → Does r v cs rs
      → Does v w cs' rs'
      → Does r (elim o [ none ↦ w | some e ↦ v ]) (cs ++ cs') (rs ++ rs')
  then-Does none r v w cs cs' rs rs' e f g q =
      let (a, b, c) = f e in
      let (a', b', c') = g q in
      (
        a' ∙ ap (λ l. l ++ cs') a ∙ append_assoc r.added cs cs',
        b' ∙ ap (λ l. l ++ rs') b ∙ append_assoc r.sent rs rs',
        c' ∙ c,
      )
  then-Does (some x) r v w cs cs' rs rs' e f g q = absurd (cc)

  loop-Does :
      (r : Rtc C) (xs : List Received)
      → Does r (on_signal_handle parse error_text r xs) (candidates_of parse xs) (answers_of xs)
  unfolding on_signal_handle candidates_of answers_of
  loop-Does r [] = nothing-Does r
  loop-Does r (x ∷ rest) =
      let v = receive_one parse error_text x r in
      then-Does v.returned r v (on_signal_handle parse error_text v rest) (candidate_of parse x)
        (candidates_of parse rest) (answer_of x) (answers_of rest) refl (receive_one-Does x r)
        (loop-Does v rest)

  -- While `Run` has not returned, whatever was received: the local peer was given every candidate
  -- that came, for either target, in order; the join was sent and then the peer's answer to every
  -- offer, in order; and the stream is not closed.
  pub rtc_run-answered :
      (sid uid : String) (joined sent : Option String) (xs : List Received)
      → (rtc_run parse error_text sid uid joined sent xs).returned ≡ none
      → ((rtc_run parse error_text sid uid joined sent xs).added ≡ candidates_of parse xs)
        × ((rtc_run parse error_text sid uid joined sent xs).sent
            ≡ join_request (rtc_join sid uid) ∷ answers_of xs)
        × ((rtc_run parse error_text sid uid joined sent xs).closed ≡ false)
  unfolding rtc_run new_rtc
  rtc_run-answered sid uid (some e) sent xs q = absurd (cc)
  rtc_run-answered sid uid none (some e) xs q = absurd (cc)
  rtc_run-answered sid uid none none xs q =
      loop-Does (record new_rtc { sent = join_request (rtc_join sid uid) ∷ [] }) xs q
