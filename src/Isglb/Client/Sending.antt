-- ===== src/Isglb/Client/Sending.antt =====
-- What becomes of a status that is given to `SendSFUStatus` (pkg/isglb/client.go).
use dion.Prelude.{
  Bool, true, false, Option, none, some, List, [], ◌∷◌, ◌++◌, ℕ, ◌≡◌, ◌⊎◌, inl, inr, refl, sym, ap,
  ◌∙◌, subst, arith, ◌||◌, String, if◌then◌else◌,
}
use dion.Util.Client.{UtilClient, reconnect, with_stream, do_with_client, send_on}
use dion.Isglb.Client.{
  Attempt, SyncMessage, status_message, closed_before, try_status, send_sfu_status,
}

-- The client was closed or a newer status was given.
unfoldable pub is_given_up : List Attempt → Bool
is_given_up [] = false
is_given_up (a ∷ rest) = a.closed || a.superseded || is_given_up rest

-- A stream can be made, and takes the message.
abbrev pub IsHealthy : Attempt → Type 0
IsHealthy a = (a.made ≡ true) × (a.result ≡ none)

module _ {S R B : Type 0} where
  -- The status was sent once, on some stream; or nothing was sent, and if it is over, that is because
  -- of `given_up`.
  abbrev pub Ends :
      S → Bool → UtilClient (SyncMessage S R) B → UtilClient (SyncMessage S R) B × Bool → Type 0
  Ends s given_up c r =
      ((r.1 ≡ true) × ((n : ℕ) × (r.0.sent ≡ c.sent ++ (n, status_message s) ∷ [])))
      ⊎ ((r.0.sent ≡ c.sent) × (r.1 ≡ true → given_up ≡ true))

  unsent : (made : Bool) (c : UtilClient (SyncMessage S R) B) → (reconnect made c).sent ≡ c.sent
  unfolding reconnect
  unsent true c = refl
  unsent false c = refl

  undone :
      (made : Bool) (c : UtilClient (SyncMessage S R) B) → (reconnect made c).top_done ≡ c.top_done
  unfolding reconnect
  undone true c = refl
  undone false c = refl

  with_stream-Ends :
      (s : S) (given_up made : Bool) (o : Option ℕ) (result : Option String)
      (c : UtilClient (SyncMessage S R) B)
      → c.top_done ≡ false
      → Ends s given_up c (with_stream made (send_on (status_message s) result) o c)
  with_stream-Ends s g made none result c d = inr (unsent made c, λ e. absurd (cc))
  with_stream-Ends s g made (some n) none c d = inl (refl, (n, refl))
  with_stream-Ends s g made (some n) (some e) c d =
      inr ((ground (arith, unsent made c)), (ground (arith)))

  do_with_client-Ends :
      (b : Bool) (s : S) (given_up : Bool) (a : Attempt) (c : UtilClient (SyncMessage S R) B)
      → c.top_done ≡ b
      → (b ≡ true → given_up ≡ true)
      → Ends s given_up c (
          if b
          then (c, true)
          else with_stream a.made (send_on (status_message s) a.result) c.stream c)
  do_with_client-Ends true s g a c d k = inr (refl, λ e. k refl)
  do_with_client-Ends false s g a c d k = with_stream-Ends s g a.made c.stream a.result c d

  try_status-Ends :
      (s : S) (given_up : Bool) (a : Attempt) (c : UtilClient (SyncMessage S R) B)
      → (c.top_done ≡ true → given_up ≡ true)
      → (a.superseded ≡ true → given_up ≡ true)
      → Ends s given_up c (try_status a s c)
  unfolding do_with_client
  try_status-Ends s g a c k j = tried c.top_done a.superseded refl k j
    where
      tried :
          (b v : Bool)
          → c.top_done ≡ b
          → (b ≡ true → g ≡ true)
          → (v ≡ true → g ≡ true)
          → Ends s g c (
              if b
              then (c, true)
              else (if v
                  then (c, true)
                  else do_with_client a.made (send_on (status_message s) a.result) c))
      tried true v q k j = inr (refl, λ e. k refl)
      tried false true q k j = inr (refl, λ e. j refl)
      tried false false q k j = do_with_client-Ends c.top_done s g a c refl (λ e. absurd (cc))

  with_stream_open :
      (s : S) (made : Bool) (o : Option ℕ) (result : Option String)
      (c : UtilClient (SyncMessage S R) B)
      → c.top_done ≡ false
      → (with_stream made (send_on (status_message s) result) o c).0.top_done ≡ false
  with_stream_open s made none result c d = undone made c ∙ d
  with_stream_open s made (some n) none c d = d
  with_stream_open s made (some n) (some e) c d = ground (arith, undone made c)

  -- Nothing closes the client meanwhile.
  try_status_open :
      (s : S) (a : Attempt) (c : UtilClient (SyncMessage S R) B)
      → (try_status a s c).0.top_done ≡ c.top_done
  unfolding do_with_client
  try_status_open s a c = tried c.top_done a.superseded refl
    where
      tried :
          (b v : Bool)
          → c.top_done ≡ b
          → (if b
              then (c, true)
              else (if v
                  then (c, true)
                  else (if b
                      then (c, true)
                      else with_stream a.made
                          (send_on (status_message s) a.result)
                          c.stream
                          c))).0.top_done
            ≡ b
      tried true v q = q
      tried false true q = q
      tried false false q = with_stream_open s a.made c.stream a.result c q

  closed_before_sent :
      (a : Attempt) (c : UtilClient (SyncMessage S R) B) → (closed_before a c).sent ≡ c.sent
  closed_before_sent a c = ground arith

  closed_before_open :
      (a : Attempt) (c : UtilClient (SyncMessage S R) B)
      → (closed_before a c).top_done ≡ a.closed || c.top_done
  closed_before_open a c = ground arith

  next-Ends :
      (s : S) (g b : Bool) (c d : UtilClient (SyncMessage S R) B)
      (more : UtilClient (SyncMessage S R) B × Bool)
      → Ends s g c (d, b)
      → Ends s g d more
      → Ends s g c (if b then (d, true) else more)
  next-Ends s g true c d more i j = i
  next-Ends s g false c d more (inl (e, x)) j = absurd (cc)
  next-Ends s g false c d more (inr (e, x)) (inl (f, (n, y))) =
      inl (f, (n, y ∙ ap (λ l. l ++ (n, status_message s) ∷ []) e))
  next-Ends s g false c d more (inr (e, x)) (inr (f, y)) = inr (f ∙ e, y)

  loop-Ends :
      (s : S) (g : Bool) (attempts : List Attempt) (c : UtilClient (SyncMessage S R) B)
      → (c.top_done ≡ true → g ≡ true)
      → (is_given_up attempts ≡ true → g ≡ true)
      → Ends s g c (send_sfu_status s attempts c)
  unfolding send_sfu_status is_given_up
  loop-Ends s g [] c k j = inr (refl, λ e. absurd (cc))
  loop-Ends s g (a ∷ rest) c k j =
      let v = closed_before a c in
      let r = try_status a s v in
      let closed : v.top_done ≡ true → g ≡ true =
        λ e. ground (arith, k, j, closed_before_open a c) in
      next-Ends s g r.1 c r.0 (send_sfu_status s rest r.0)
        (subst
          (λ l.
            ((r.1 ≡ true) × ((n : ℕ) × (r.0.sent ≡ l ++ (n, status_message s) ∷ [])))
            ⊎ ((r.0.sent ≡ l) × (r.1 ≡ true → g ≡ true)))
          (closed_before_sent a c) (try_status-Ends s g a v closed (λ e. ground (arith, j))))
        (loop-Ends s g rest r.0 (λ e. closed (sym (try_status_open s a v) ∙ e))
          (λ e. ground (arith, j)))

  -- However the attempts of `SendSFUStatus` go, either it has returned and the status was sent once
  -- more than before, and last of all; or nothing was sent, and if it has returned, that is because
  -- the client was closed or a newer status was given.
  pub send_sfu_status-Ends :
      (s : S) (attempts : List Attempt) (c : UtilClient (SyncMessage S R) B)
      → Ends s (c.top_done || is_given_up attempts) c (send_sfu_status s attempts c)
  send_sfu_status-Ends s attempts c =
      loop-Ends s (c.top_done || is_given_up attempts) attempts c (λ e. ground (arith))
        (λ e. ground (arith))

  -- An attempt by which a stream is there for the next one, or that is the last.
  healthy_stream :
      (s : S) (o : Option ℕ) (made : Bool) (result : Option String)
      (c : UtilClient (SyncMessage S R) B)
      → made ≡ true
      → result ≡ none
      → let r = with_stream made (send_on (status_message s) result) o c in
        (r.1 ≡ true) ⊎ ((n : ℕ) × (r.0.stream ≡ some n))
  unfolding reconnect
  healthy_stream s none true result c e f = inr (c.next, refl)
  healthy_stream s none false result c e f = absurd (cc)
  healthy_stream s (some n) made none c e f = inl refl
  healthy_stream s (some n) made (some x) c e f = absurd (cc)

  healthy_try :
      (s : S) (a : Attempt) (c : UtilClient (SyncMessage S R) B)
      → IsHealthy a
      → ((try_status a s c).1 ≡ true) ⊎ ((n : ℕ) × ((try_status a s c).0.stream ≡ some n))
  unfolding do_with_client
  healthy_try s a c h = tried c.top_done a.superseded
    where
      tried :
          (b v : Bool)
          → let r =
              if b
              then (c, true)
              else (if v
                  then (c, true)
                  else (if b
                      then (c, true)
                      else with_stream a.made (send_on (status_message s) a.result) c.stream c)) in
            (r.1 ≡ true) ⊎ ((n : ℕ) × (r.0.stream ≡ some n))
      tried true v = inl refl
      tried false true = inl refl
      tried false false = healthy_stream s c.stream a.made a.result c h.0 h.1

  healthy_sent :
      (s : S) (o : Option ℕ) (made : Bool) (result : Option String) (n : ℕ)
      (c : UtilClient (SyncMessage S R) B)
      → o ≡ some n
      → result ≡ none
      → (with_stream made (send_on (status_message s) result) o c).1 ≡ true
  healthy_sent s none made result n c q f = absurd (cc)
  healthy_sent s (some m) made none n c q f = refl
  healthy_sent s (some m) made (some x) n c q f = absurd (cc)

  healthy_end :
      (s : S) (a : Attempt) (n : ℕ) (c : UtilClient (SyncMessage S R) B)
      → IsHealthy a
      → c.stream ≡ some n
      → (try_status a s c).1 ≡ true
  unfolding do_with_client
  healthy_end s a n c h q = tried c.top_done a.superseded
    where
      tried :
          (b v : Bool)
          → (if b
              then (c, true)
              else (if v
                  then (c, true)
                  else (if b
                      then (c, true)
                      else with_stream a.made (send_on (status_message s) a.result) c.stream c))).1
            ≡ true
      tried true v = refl
      tried false true = refl
      tried false false = healthy_sent s c.stream a.made a.result n c q h.1

  closed_before_stream :
      (a : Attempt) (c : UtilClient (SyncMessage S R) B) → (closed_before a c).stream ≡ c.stream
  closed_before_stream a c = ground arith

  -- The loop is over by its first attempt or by the others.
  is_over :
      (b : Bool) (d : UtilClient (SyncMessage S R) B) (more : UtilClient (SyncMessage S R) B × Bool)
      → (b ≡ true) ⊎ (more.1 ≡ true)
      → (if b then (d, true) else more).1 ≡ true
  is_over true d more e = refl
  is_over false d more (inl e) = absurd (cc)
  is_over false d more (inr e) = e

  two_healthy :
      (s : S) (a b : Attempt) (after : List Attempt) (c : UtilClient (SyncMessage S R) B)
      → IsHealthy a
      → IsHealthy b
      → (send_sfu_status s (a ∷ b ∷ after) c).1 ≡ true
  unfolding send_sfu_status
  two_healthy s a b after c h k =
      let r = try_status a s (closed_before a c) in
      is_over r.1 r.0 (send_sfu_status s (b ∷ after) r.0)
        (elim (healthy_try s a (closed_before a c) h) [
          | inl e ↦ inl e
          | inr (n, q) ↦ inr (
              let t = try_status b s (closed_before b r.0) in
              is_over t.1 t.0 (send_sfu_status s after t.0)
                (inl (healthy_end s b n (closed_before b r.0) k (closed_before_stream b r.0 ∙ q))))
        ])

  -- Whatever came before: with two attempts in a row, by which a stream can be made and takes the
  -- message, `SendSFUStatus` has returned.
  pub send_sfu_status-returns :
      (s : S) (before : List Attempt) (a b : Attempt) (after : List Attempt)
      (c : UtilClient (SyncMessage S R) B)
      → IsHealthy a
      → IsHealthy b
      → (send_sfu_status s (before ++ a ∷ b ∷ after) c).1 ≡ true
  unfolding send_sfu_status
  send_sfu_status-returns s [] a b after c h k = two_healthy s a b after c h k
  send_sfu_status-returns s (x ∷ before) a b after c h k =
      let r = try_status x s (closed_before x c) in
      is_over r.1 r.0 (send_sfu_status s (before ++ a ∷ b ∷ after) r.0)
        (inr (send_sfu_status-returns s before a b after r.0 h k))
