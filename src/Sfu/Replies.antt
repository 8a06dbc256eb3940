-- ===== src/Sfu/Replies.antt =====
-- pkg/sfu/service.go: what the cases of `Signal` answer and return. What the peer of ion-sfu and
-- `sig.Send` answer is given with the request.
use Prim.Native.String.{◌++◌ as ◌++s◌}
use dion.Prelude.{
  Bool, true, false, Option, none, some, List, [], ◌∷◌, ◌++◌, String, String-discrete, holds,
  if◌then◌else◌,
}
use dion.Prelude.GoMap.{GoMap, get}
use dion.Sfu.Messages.{
  Description, TrackInfo, publisher, track_add, internal_error, unsupported_media_type, Reply,
  join_reply, description_reply, track_event, error_reply, JoinRequest, SdpType, offer, answer,
  other_type,
}

-- The status that `Signal` returns.
pub data GrpcError : Type 0 where
  internal unknown received : String → GrpcError

-- A case of `Signal` goes on with the loop, returns, or dereferences a nil pointer.
pub data Outcome : Type 0 where
  goes_on panics : Outcome
  returns : Option GrpcError → Outcome

-- What the peer answers to a description.
pub data Answer : Type 0 where
  answered : Description → Answer
  refuses : String → Answer

-- What `peer.Join` answers: the peer has a session, with a name; `ErrTransportExists` or
-- `ErrOfferIgnored`; or another error. A join that fails says what name the peer has, if its session
-- was set before the error.
pub data JoinResult : Type 0 where
  joined : String → JoinResult
  refused_known refused : String → Option String → JoinResult

-- Another peer of the session: its name, and its published tracks if it publishes.
pub record PeerInfo : Type 0 where
  pub id : String
  pub published : Option (List TrackInfo)

-- The answers to a join: of `peer.Join`, of the sending of its error, whether there is a publisher,
-- of `peer.Answer`, and the peers of the session.
pub record JoinAnswers : Type 0 where
  pub result : JoinResult
  pub error_sent : Option String
  pub publishes : Bool
  pub answer : Answer
  pub peers : List PeerInfo

-- What `SetRemoteDescription` and `Trickle` answer.
pub data PeerResult : Type 0 where
  accepted : PeerResult
  no_transport other_error : String → PeerResult

-- `if val, found := Config[key]; found { ... val == "true" }`
unfoldable pub is_set : String → GoMap String String → Bool
is_set name config = elim (get String-discrete name config) [
  | some val ↦ holds (String-discrete val "true")
  | none ↦ false
]

-- A failed `Send` of an error ends the stream.
abbrev pub sent_or_returns : Option String → Outcome
sent_or_returns none = goes_on
sent_or_returns (some e) = returns (some (internal e))

-- The events for the tracks that are there already: for each other peer that publishes some.
unfoldable pub existing_tracks : String → List PeerInfo → List Reply
existing_tracks me [] = []
existing_tracks me (p ∷ rest) =
    let more = existing_tracks me rest in
    if holds (String-discrete me p.id) then more else elim p.published [
      | none ↦ more
      | some [] ↦ more
      | some (t ∷ ts) ↦ track_event p.id (t ∷ ts) track_add ∷ more
    ]

-- From the loop over the peers on; without a session it is a nil pointer.
abbrev pub greet : Option String → List PeerInfo → Outcome × List Reply
greet none peers = (panics, [])
greet (some me) peers = (goes_on, existing_tracks me peers)

-- What follows some replies: more of them, with the outcome.
abbrev pub after : List Reply → Outcome × List Reply → Outcome × List Reply
after replies (o, more) = (o, replies ++ more)

-- The answer to a publisher's offer; a join without a description is a nil pointer.
unfoldable pub answer_join :
    Option Description → Answer → Outcome × List Reply → Outcome × List Reply
answer_join none a rest = (panics, [])
answer_join (some desc) (refuses e) rest = (returns (some (internal ("answer error: " ++s e))), [])
answer_join (some desc) (answered d) rest =
    after (join_reply true none (some (publisher, d)) ∷ []) rest

-- `peer.ID()`, where `peer.Session()` is set: by this join or by one before.
unfoldable pub peer_after : Option String → JoinResult → Option String
peer_after (some id) result = some id
peer_after none (joined id) = some id
peer_after none (refused_known e known) = known
peer_after none (refused e known) = known

-- The case of a join after `peer.Join` is called, to its end.
unfoldable pub welcome : Option String → JoinRequest → JoinAnswers → Outcome × List Reply
welcome peer req ans =
    let rest = greet peer ans.peers in
    if ans.publishes then answer_join req.description ans.answer rest else rest

abbrev pub refuse_join : Option String → List Reply → Outcome × List Reply → Outcome × List Reply
refuse_join none replies rest = after replies rest
refuse_join (some e) replies rest = (returns (some (internal e)), replies)

-- An error that is known is sent, and the join goes on; another one ends the stream.
unfoldable pub join_replies : Option String → JoinRequest → JoinAnswers → Outcome × List Reply
join_replies peer req ans = elim ans.result [
  | joined id ↦ welcome peer req ans
  | refused_known e known ↦
      refuse_join ans.error_sent
        (join_reply false (some (internal_error, "join error: " ++s e)) none ∷ [])
        (welcome peer req ans)
  | refused e known ↦ (returns (some (unknown e)), [])
]

-- `Request_Description`; `sent` is the error of the `Send` that is tested, if it fails.
unfoldable pub describe : SdpType → Answer → PeerResult → Option String → Outcome × List Reply
describe offer (refuses e) result sent = (returns (some (internal ("answer error: " ++s e))), [])
describe offer (answered d) result sent = (sent_or_returns sent, description_reply publisher d ∷ [])
describe answer a accepted sent = (goes_on, [])
describe answer a (no_transport e) sent = (
  sent_or_returns sent,
  join_reply false (some (unsupported_media_type, "set remote description error: " ++s e)) none
      ∷ [],
)
describe answer a (other_error e) sent = (returns (some (unknown e)), [])
describe other_type a result sent = (goes_on, [])

-- `Request_Trickle`: `parsed` is the error of `json.Unmarshal`, if it fails.
unfoldable pub trickle : Option String → PeerResult → Option String → Outcome × List Reply
trickle (some e) result sent = (
  sent_or_returns sent,
  error_reply internal_error ("unmarshal ice candidate error:  " ++s e) ∷ [],
)
trickle none accepted sent = (goes_on, [])
trickle none (no_transport e) sent =
    (sent_or_returns sent, error_reply internal_error ("trickle error:  " ++s e) ∷ [])
trickle none (other_error e) sent = (returns (some (unknown ("negotiate error: " ++s e))), [])
