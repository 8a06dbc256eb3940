-- ===== src/Util/Client/Contexts.antt =====
-- The contexts and streams of a `Client` (util/client.go).
use dion.Prelude.{
  Bool, true, false, Option, none, some, List, [], ◌∷◌, ◌++◌, ℕ, suc, ◌<◌, ◌≡◌, ◌≢◌, ◌⊎◌, inl, inr,
  refl, arith, ℕ_discrete, holds, ◌||◌, String, if◌then◌else◌,
}
use dion.Util.Client.{
  UtilClient, new_util_client, cancel, born, op_results, stream_results, reconnect, after_op,
  with_stream, do_with_client, send_on, recv_on, send_request, read_message, sfu_send, exec_result,
  ClientEvent, sends, reads, reconnects, connects, closes, client_step, client_run,
}

unfoldable pub is_in : ℕ → List ℕ → Bool
is_in n [] = false
is_in n (m ∷ rest) = holds (ℕ_discrete m n) || is_in n rest

pub is_in-append : (n : ℕ) (xs ys : List ℕ) → is_in n (xs ++ ys) ≡ is_in n xs || is_in n ys
unfolding is_in
is_in-append n [] ys = refl
is_in-append n (x ∷ xs) ys = ground (arith, is_in-append n xs ys)

is_in-cancel :
    (n : ℕ) (last : Option ℕ) (canceled : List ℕ)
    → is_in n (cancel last canceled)
      ≡ is_in n canceled || elim last [ none ↦ false | some m ↦ holds (ℕ_discrete m n) ]
unfolding is_in
is_in-cancel n none canceled = ground arith
is_in-cancel n (some m) canceled = ground (arith, is_in-append n canceled (m ∷ []))

-- The contexts that were made are canceled, but the last one as long as the client is not closed.
abbrev pub IsCanceled : Bool → Option ℕ → ℕ → List ℕ → Type 0
IsCanceled top last next canceled =
    (n : ℕ)
    → (n < next → (is_in n canceled ≡ true) ⊎ (last ≡ some n))
      × (is_in n canceled ≡ true → (n < next) × (last ≡ some n → top ≡ true))
      × (last ≡ some n → (n < next) × (top ≡ true → is_in n canceled ≡ true))

cancel-IsCanceled :
    (top : Bool) (last : Option ℕ) (next : ℕ) (canceled : List ℕ)
    → IsCanceled top last next canceled
    → IsCanceled top (some next) (suc next) (born top next (cancel last canceled))
unfolding is_in
cancel-IsCanceled false none next canceled i n =
    ground (arith, i n, i next, is_in-cancel n none canceled)
cancel-IsCanceled false (some m) next canceled i n =
    ground (arith, i n, i m, i next, is_in-cancel n (some m) canceled)
cancel-IsCanceled true none next canceled i n =
    ground (arith, i n, i next, is_in-append n canceled (next ∷ []))
cancel-IsCanceled true (some m) next canceled i n = ground (
  arith,
  i n,
  i m,
  is_in-append n (cancel (some m) canceled) (next ∷ []),
  is_in-cancel n (some m) canceled,
)

closed-IsCanceled :
    (top : Bool) (last : Option ℕ) (next : ℕ) (canceled : List ℕ)
    → IsCanceled top last next canceled
    → IsCanceled true last next (cancel last canceled)
closed-IsCanceled top none next canceled i n = ground (arith, i n)
closed-IsCanceled top (some m) next canceled i n =
    ground (arith, i n, i m, is_in-cancel n (some m) canceled)

module _ {A B : Type 0} where
  -- The contexts as above, and a client is connected exactly if its stream is that of the last one.
  pub record IsLinked (c : UtilClient A B) : Type 0 where
    pub contexts : IsCanceled c.top_done c.cancel_last c.next c.canceled
    pub linked : c.connected ≡ true → (n : ℕ) × (c.stream ≡ some n) × (c.cancel_last ≡ some n)
    pub current :
        (n : ℕ) → c.stream ≡ some n → (n < c.next) × (c.cancel_last ≡ some n → c.connected ≡ true)

  reconnect-IsLinked : (made : Bool) (c : UtilClient A B) → IsLinked c → IsLinked (reconnect made c)
  unfolding reconnect
  reconnect-IsLinked true c i = record {
    contexts = cancel-IsCanceled c.top_done c.cancel_last c.next c.canceled i.contexts;
    linked = λ e. (c.next, refl, refl);
    current = λ n e. ground (arith, i.contexts c.next);
  }
  reconnect-IsLinked false c i = record {
    contexts = cancel-IsCanceled c.top_done c.cancel_last c.next c.canceled i.contexts;
    linked = λ e. absurd (cc);
    current = λ n e. ground (arith, i.current n e);
  }

  choice-IsLinked :
      (b : Bool) (x y : UtilClient A B × Bool)
      → IsLinked x.0
      → IsLinked y.0
      → IsLinked (if b then x else y).0
  choice-IsLinked true x y i j = i
  choice-IsLinked false x y i j = j

  after_op-IsLinked :
      (made : Bool) (r : UtilClient A B × Option String)
      → IsLinked r.0
      → IsLinked (after_op made r).0
  after_op-IsLinked made (c, none) i = i
  after_op-IsLinked made (c, some e) i =
      choice-IsLinked c.top_done (c, true) (reconnect made c, false) i (reconnect-IsLinked made c i)

  with_stream-IsLinked :
      (made : Bool) (op : ℕ → UtilClient A B → UtilClient A B × Option String) (o : Option ℕ)
      (c : UtilClient A B)
      → ((n : ℕ) → IsLinked (op n c).0)
      → IsLinked c
      → IsLinked (with_stream made op o c).0
  with_stream-IsLinked made op none c k i = reconnect-IsLinked made c i
  with_stream-IsLinked made op (some n) c k i = after_op-IsLinked made (op n c) (k n)

  do_with_client-IsLinked :
      (made : Bool) (op : ℕ → UtilClient A B → UtilClient A B × Option String) (c : UtilClient A B)
      → ((n : ℕ) → IsLinked (op n c).0)
      → IsLinked c
      → IsLinked (do_with_client made op c).0
  unfolding do_with_client
  do_with_client-IsLinked made op c k i =
      choice-IsLinked c.top_done (c, true) (with_stream made op c.stream c) i
        (with_stream-IsLinked made op c.stream c k i)

  send_on-IsLinked :
      (request : A) (result : Option String) (c : UtilClient A B) (n : ℕ)
      → IsLinked c
      → IsLinked (send_on request result n c).0
  send_on-IsLinked request none c n i = record {
    contexts = i.contexts;
    linked = i.linked;
    current = i.current;
  }
  send_on-IsLinked request (some e) c n i = i

  recv_on-IsLinked :
      (message : Option B) (c : UtilClient A B) (n : ℕ)
      → IsLinked c
      → IsLinked (recv_on message n c).0
  recv_on-IsLinked none c n i = i
  recv_on-IsLinked (some s) c n i = record {
    contexts = i.contexts;
    linked = i.linked;
    current = i.current;
  }

  read_turn-IsLinked :
      (b d : Bool) (c v : UtilClient A B)
      → IsLinked c
      → IsLinked v
      → IsLinked (if b then (if d then record c { reading = false } else v) else c)
  read_turn-IsLinked true true c v i j = record {
    contexts = i.contexts;
    linked = i.linked;
    current = i.current;
  }
  read_turn-IsLinked true false c v i j = j
  read_turn-IsLinked false d c v i j = i

  client_step-IsLinked :
      (c : UtilClient A B) (e : ClientEvent A B) → IsLinked c → IsLinked (client_step c e)
  unfolding client_step send_request read_message
  client_step-IsLinked c (sends made request result) i =
      do_with_client-IsLinked made (send_on request result) c
        (λ n. send_on-IsLinked request result c n i) i
  client_step-IsLinked c (reads made message) i =
      read_turn-IsLinked c.reading c.top_done c (do_with_client made (recv_on message) c).0 i
        (do_with_client-IsLinked made (recv_on message) c (λ n. recv_on-IsLinked message c n i) i)
  client_step-IsLinked c (reconnects made) i = reconnect-IsLinked made c i
  client_step-IsLinked c connects i = record {
    contexts = i.contexts;
    linked = i.linked;
    current = i.current;
  }
  client_step-IsLinked c closes i = record {
    contexts = closed-IsCanceled c.top_done c.cancel_last c.next c.canceled i.contexts;
    linked = i.linked;
    current = i.current;
  }

  run-IsLinked :
      (c : UtilClient A B) (es : List (ClientEvent A B)) → IsLinked c → IsLinked (client_run c es)
  unfolding client_run
  run-IsLinked c [] i = i
  run-IsLinked c (e ∷ es) i = run-IsLinked (client_step c e) es (client_step-IsLinked c e i)

  new_util_client-IsLinked : IsLinked new_util_client
  unfolding new_util_client is_in
  new_util_client-IsLinked = record {
    contexts = λ n. ground arith;
    linked = λ e. absurd (cc);
    current = λ n e. absurd (cc);
  }

  -- In every state that a client reaches: of the contexts that it made for streams all but the last
  -- one are canceled, the last one is canceled exactly if the client was closed, and it is
  -- connected exactly if its stream is the one of the last context.
  pub client_run-IsLinked : (es : List (ClientEvent A B)) → IsLinked (client_run new_util_client es)
  client_run-IsLinked es = run-IsLinked new_util_client es new_util_client-IsLinked

  reconnect-sent : (made : Bool) (c : UtilClient A B) → (reconnect made c).sent ≡ c.sent
  unfolding reconnect
  reconnect-sent true c = refl
  reconnect-sent false c = refl

  -- `Send` of an SFU's client: without an error, the request was given to the stream that the client
  -- had, last of all. With an error, nothing was sent.
  pub sfu_send_cases :
      (made : Bool) (request : A) (result : Option String) (c : UtilClient A B)
      → (((sfu_send made request result c).1 ≡ none)
          × ((n : ℕ) × (c.stream ≡ some n)
              × ((sfu_send made request result c).0.sent ≡ c.sent ++ (n, request) ∷ [])))
        ⊎ (((sfu_send made request result c).1 ≢ none)
            × ((sfu_send made request result c).0.sent ≡ c.sent))
  unfolding sfu_send op_results do_with_client reconnect
  sfu_send_cases made request result c = cases c.top_done c.stream result refl refl
    where
      cases :
          (b : Bool) (o : Option ℕ) (r : Option String)
          → c.top_done ≡ b
          → c.stream ≡ o
          → let op = send_on request r in
            let v = (if b then (c, true) else with_stream made op o c).0 in
            let err = exec_result (if b then [] else stream_results op o c) in
            ((err ≡ none) × ((n : ℕ) × (o ≡ some n) × (v.sent ≡ c.sent ++ (n, request) ∷ [])))
            ⊎ ((err ≢ none) × (v.sent ≡ c.sent))
      cases true o r e q = inr (λ x. absurd (cc), refl)
      cases false none r e q = inr (λ x. absurd (cc), reconnect-sent made c)
      cases false (some n) none e q = inl (refl, (n, refl, refl))
      cases false (some n) (some err) e q =
          inr (λ x. absurd (cc), (ground (arith, reconnect-sent made c)))
