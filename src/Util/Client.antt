-- ===== src/Util/Client.antt =====
-- util/client.go: `Client`, one call at a time, with the contexts of its streams, which are numbered
-- as they are made; a stream has the number of its context. Whether `NewClientStream` makes a stream
-- and what a stream answers come with the calls.
pub mod Contexts
pub mod Reconnect
use dion.Prelude.{
  Bool, true, false, Option, none, some, List, [], ◌∷◌, ◌++◌, ℕ, suc, ◌+◌, ◌%◌, ◌^◌, String,
  if◌then◌else◌,
}

-- `reconnect_times` is 32 bits wide. `reading` is whether `msgReadLoop` runs; `reconnected` counts
-- the calls of `onReconnect`. `canceled`, `sent` and `received` record what happened.
pub record UtilClient (A B : Type 0) : Type 0 where
  pub top_done : Bool
  pub connected : Bool
  pub reading : Bool
  pub stream : Option ℕ
  pub cancel_last : Option ℕ
  pub next : ℕ
  pub canceled : List ℕ
  pub reconnect_times : ℕ
  pub reconnected : ℕ
  pub sent : List (ℕ × A)
  pub received : List B

unfoldable pub new_util_client : {A B : Type 0} → UtilClient A B
new_util_client = record {
  top_done = false;
  connected = false;
  reading = false;
  stream = none;
  cancel_last = none;
  next = 0;
  canceled = [];
  reconnect_times = 0;
  reconnected = 0;
  sent = [];
  received = [];
}

-- `atomic.AddUint32(&times, 1)`
abbrev pub add_uint32 : ℕ → ℕ
add_uint32 times = suc times % 2 ^ 32

abbrev pub cancel : Option ℕ → List ℕ → List ℕ
cancel none canceled = canceled
cancel (some n) canceled = canceled ++ n ∷ []

-- The new context is a child of the top context: canceled as it is made, if that one is.
abbrev pub born : Bool → ℕ → List ℕ → List ℕ
born true n canceled = canceled ++ n ∷ []
born false n canceled = canceled

-- The error of `Send` of pkg/sfu/client.go, by the results of its operation: the operation sets `exec`
-- and `err` as it runs.
abbrev pub exec_result : List (Option String) → Option String
exec_result [] = some "rtc.Request not send"
exec_result (err ∷ more) = err

module _ {A B : Type 0} where
  -- From `NewClientStream` on: whether it made a stream.
  abbrev pub use_stream : Bool → ℕ → UtilClient A B → UtilClient A B
  use_stream false n c = c
  use_stream true n c = record c {
    stream = some n;
    reading = true;
    connected = true;
    reconnected = suc c.reconnected;
  }

  -- What `reconnect` executes.
  unfoldable pub reconnect : Bool → UtilClient A B → UtilClient A B
  reconnect made c = use_stream made c.next (record c {
    connected = false;
    reconnect_times = add_uint32 c.reconnect_times;
    canceled = born c.top_done c.next (cancel c.cancel_last c.canceled);
    cancel_last = some c.next;
    next = suc c.next;
  })

  -- After the operation: its error, if there is one.
  abbrev pub after_op : Bool → UtilClient A B × Option String → UtilClient A B × Bool
  after_op made (c, none) = (c, true)
  after_op made (c, some e) = if c.top_done then (c, true) else (reconnect made c, false)

  abbrev pub with_stream :
      Bool
      → (ℕ → UtilClient A B → UtilClient A B × Option String)
      → Option ℕ
      → UtilClient A B
      → UtilClient A B × Bool
  with_stream made op none c = (reconnect made c, false)
  with_stream made op (some n) c = after_op made (op n c)

  -- `DoWithClient`
  unfoldable pub do_with_client :
      Bool
      → (ℕ → UtilClient A B → UtilClient A B × Option String)
      → UtilClient A B
      → UtilClient A B × Bool
  do_with_client made op c = if c.top_done then (c, true) else with_stream made op c.stream c

  -- `client.Send`, with its error.
  abbrev pub send_on : A → Option String → ℕ → UtilClient A B → UtilClient A B × Option String
  send_on request (some e) n c = (c, some e)
  send_on request none n c = (record c { sent = c.sent ++ (n, request) ∷ [] }, none)

  -- `client.Recv`, with the handler of messages: nothing is received by an error.
  abbrev pub recv_on : Option B → ℕ → UtilClient A B → UtilClient A B × Option String
  recv_on none n c = (c, some "recv")
  recv_on (some s) n c = (record c { received = c.received ++ s ∷ [] }, none)

  -- `Send`
  unfoldable pub send_request : Bool → A → Option String → UtilClient A B → UtilClient A B
  send_request made request result c = (do_with_client made (send_on request result) c).0

  -- One turn of `msgReadLoop`, if it runs.
  unfoldable pub read_message : Bool → Option B → UtilClient A B → UtilClient A B
  read_message made message c =
      if c.reading
      then (if c.top_done
          then record c { reading = false }
          else (do_with_client made (recv_on message) c).0)
      else c

  -- What the operation returns each time `DoWithClient` runs it: never, without a stream or if the
  -- client is closed, else once.
  abbrev pub stream_results :
      (ℕ → UtilClient A B → UtilClient A B × Option String)
      → Option ℕ
      → UtilClient A B
      → List (Option String)
  stream_results op none c = []
  stream_results op (some n) c = (op n c).1 ∷ []

  unfoldable pub op_results :
      (ℕ → UtilClient A B → UtilClient A B × Option String) → UtilClient A B → List (Option String)
  op_results op c = if c.top_done then [] else stream_results op c.stream c

  -- `Send` of pkg/sfu/client.go
  unfoldable pub sfu_send :
      Bool → A → Option String → UtilClient A B → UtilClient A B × Option String
  sfu_send made request result c =
      let op = send_on request result in
      ((do_with_client made op c).0, exec_result (op_results op c))

  -- `Connect`
  abbrev pub connect_client : UtilClient A B → UtilClient A B
  connect_client c = record c { reading = true }

  -- `Close`: the top context is canceled, and with it the last context that was made from it. The
  -- others are canceled already.
  abbrev pub close_client : UtilClient A B → UtilClient A B
  close_client c = record c { top_done = true; canceled = cancel c.cancel_last c.canceled }

-- The calls, with what they meet.
pub data ClientEvent (A B : Type 0) : Type 0 where
  sends : Bool → A → Option String → ClientEvent A B
  reads : Bool → Option B → ClientEvent A B
  reconnects : Bool → ClientEvent A B
  connects closes : ClientEvent A B

unfoldable pub client_step : {A B : Type 0} → UtilClient A B → ClientEvent A B → UtilClient A B
client_step c (sends made request result) = send_request made request result c
client_step c (reads made message) = read_message made message c
client_step c (reconnects made) = reconnect made c
client_step c connects = connect_client c
client_step c closes = close_client c

unfoldable pub client_run :
    {A B : Type 0} → UtilClient A B → List (ClientEvent A B) → UtilClient A B
client_run c [] = c
client_run c (e ∷ es) = client_run (client_step c e) es
