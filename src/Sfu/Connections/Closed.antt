-- ===== src/Sfu/Connections/Closed.antt =====
-- Which peer connections are closed (pkg/sfu/subscriber.go, pkg/sfu/publisher.go).
use dion.Prelude.{
  Bool, true, false, Option, none, some, List, [], ◌∷◌, ◌++◌, ℕ, ◌≡◌, refl, arith, String, All,
}
use dion.Prelude.GoMap.{GoMap}
use dion.Proto.{ClientNeededSession}
use dion.Sfu.Messages.{Description}
use dion.Sfu.Replies.{Answer, answered, refuses}
use dion.Sfu.Connections.{
  LinkCall, closes, installs, takes_tracks, describes, refreshes, sends, Link, new_link, close_last,
  subscriber_reconnected, refresh_on, join_session, subscriber_joins, publisher_reconnected,
  publisher_joins, SubscriberEvent, PublisherEvent, subscriber_step, publisher_step,
  subscriber_links, publisher_links,
}
use dion.Sfu.Connections as Connections
use dion.Sfu.Connections.Tidy.{
  is_closed, is_closed-close_last, IsQuiet, IsTidy, IsAbandoned, quiet-IsTidy, again-IsTidy,
  fresh-IsTidy, close_last-IsAbandoned, quiet-IsAbandoned,
}

abbrev pub Tidy : Link → Type 0
Tidy l = IsTidy l.last l.next l.calls

abbrev pub Abandoned : ℕ → Link → Type 0
Abandoned n l = IsAbandoned n l.last l.next l.calls

-- The calls that close nothing.
refresh_on-IsQuiet : (result : Option String) → IsQuiet (refresh_on result)
unfolding is_closed
refresh_on-IsQuiet none n = refl
refresh_on-IsQuiet (some e) n = refl

join_session-Tidy :
    (config : GoMap String String) (offer : Option Description) (result : Option String)
    (s : Option ClientNeededSession) (l : Link)
    → Tidy l
    → Tidy (join_session config offer result s l)
unfolding is_closed
join_session-Tidy config offer result none l t = t
join_session-Tidy config offer result (some s) l t =
    quiet-IsTidy l.last l.next l.calls
      (sends (Connections.join_request_of s config offer) ∷ refresh_on result)
      (refresh_on-IsQuiet result) t

join_session-Abandoned :
    (m : ℕ) (config : GoMap String String) (offer : Option Description) (result : Option String)
    (s : Option ClientNeededSession) (l : Link)
    → Abandoned m l
    → Abandoned m (join_session config offer result s l)
unfolding is_closed
join_session-Abandoned m config offer result none l t = t
join_session-Abandoned m config offer result (some s) l t =
    quiet-IsAbandoned m l.last l.next l.calls
      (sends (Connections.join_request_of s config offer) ∷ refresh_on result)
      (refresh_on-IsQuiet result) t

subscriber_step-Tidy : (l : Link) (e : SubscriberEvent) → Tidy l → Tidy (subscriber_step l e)
unfolding subscriber_step subscriber_reconnected subscriber_joins is_closed
subscriber_step-Tidy l (SubscriberEvent.switches s) t = t
subscriber_step-Tidy l (SubscriberEvent.reconnects false) t =
    again-IsTidy l.last l.next l.calls (refreshes ∷ []) (λ n. refl) t
subscriber_step-Tidy l (SubscriberEvent.reconnects true) t =
    fresh-IsTidy l.last l.next l.calls (installs l.next ∷ []) (λ n. refl) t
subscriber_step-Tidy l (SubscriberEvent.joins result) t =
    join_session-Tidy (("NoPublish", "true") ∷ []) none result l.session l t

-- A publisher's event by which every new connection takes its tracks.
abbrev pub TakesTracks : PublisherEvent → Type 0
TakesTracks (PublisherEvent.switches s) = Unit
TakesTracks (PublisherEvent.reconnects made takes) = takes ≡ true
TakesTracks (PublisherEvent.joins n offer described result) = Unit

publisher_joins-Tidy :
    (n : ℕ) (a : Answer) (described result : Option String) (l : Link)
    → Tidy l
    → Tidy (publisher_joins n a described result l)
unfolding publisher_joins is_closed
publisher_joins-Tidy n (refuses e) described result l t =
    quiet-IsTidy l.last l.next l.calls (refreshes ∷ []) (λ n. refl) t
publisher_joins-Tidy n (answered offer) (some e) result l t =
    quiet-IsTidy l.last l.next l.calls (describes n ∷ refreshes ∷ []) (λ n. refl) t
publisher_joins-Tidy n (answered offer) none result l t =
    join_session-Tidy (("NoSubscribe", "true") ∷ []) (some offer) result l.session
      (record l { calls = l.calls ++ describes n ∷ [] })
      (quiet-IsTidy l.last l.next l.calls (describes n ∷ []) (λ n. refl) t)

publisher_joins-Abandoned :
    (m n : ℕ) (a : Answer) (described result : Option String) (l : Link)
    → Abandoned m l
    → Abandoned m (publisher_joins n a described result l)
unfolding publisher_joins is_closed
publisher_joins-Abandoned m n (refuses e) described result l t =
    quiet-IsAbandoned m l.last l.next l.calls (refreshes ∷ []) (λ n. refl) t
publisher_joins-Abandoned m n (answered offer) (some e) result l t =
    quiet-IsAbandoned m l.last l.next l.calls (describes n ∷ refreshes ∷ []) (λ n. refl) t
publisher_joins-Abandoned m n (answered offer) none result l t =
    join_session-Abandoned m (("NoSubscribe", "true") ∷ []) (some offer) result l.session
      (record l { calls = l.calls ++ describes n ∷ [] })
      (quiet-IsAbandoned m l.last l.next l.calls (describes n ∷ []) (λ n. refl) t)

publisher_step-Tidy :
    (l : Link) (e : PublisherEvent) → TakesTracks e → Tidy l → Tidy (publisher_step l e)
unfolding publisher_step publisher_reconnected is_closed
publisher_step-Tidy l (PublisherEvent.switches s) k t = t
publisher_step-Tidy l (PublisherEvent.reconnects false takes) k t =
    again-IsTidy l.last l.next l.calls (refreshes ∷ []) (λ n. refl) t
publisher_step-Tidy l (PublisherEvent.reconnects true true) k t =
    fresh-IsTidy l.last l.next l.calls (installs l.next ∷ takes_tracks l.next ∷ []) (λ n. refl) t
publisher_step-Tidy l (PublisherEvent.reconnects true false) k t = absurd (cc)
publisher_step-Tidy l (PublisherEvent.joins n offer described result) k t =
    publisher_joins-Tidy n offer described result l t

publisher_reconnected-Abandoned :
    (m : ℕ) (made takes : Bool) (l : Link)
    → Abandoned m l
    → Abandoned m (publisher_reconnected made takes l)
unfolding publisher_reconnected is_closed
publisher_reconnected-Abandoned m false takes l t =
    (t.0, t.1, close_last-IsAbandoned m l.last l.next l.calls (refreshes ∷ []) (λ n. refl) t)
publisher_reconnected-Abandoned m true false l t = (
  (ground (arith, t.0)),
  t.1,
  close_last-IsAbandoned m l.last l.next l.calls
      (installs l.next ∷ takes_tracks l.next ∷ refreshes ∷ []) (λ n. refl) t,
)
publisher_reconnected-Abandoned m true true l t = (
  (ground (arith, t.0)),
  (ground (arith, t.0)),
  close_last-IsAbandoned m l.last l.next l.calls (installs l.next ∷ takes_tracks l.next ∷ [])
      (λ n. refl) t,
)

publisher_step-Abandoned :
    (m : ℕ) (l : Link) (e : PublisherEvent) → Abandoned m l → Abandoned m (publisher_step l e)
unfolding publisher_step
publisher_step-Abandoned m l (PublisherEvent.switches s) t = t
publisher_step-Abandoned m l (PublisherEvent.reconnects made takes) t =
    publisher_reconnected-Abandoned m made takes l t
publisher_step-Abandoned m l (PublisherEvent.joins n offer described result) t =
    publisher_joins-Abandoned m n offer described result l t

new_link-Tidy : Tidy new_link
unfolding new_link is_closed
new_link-Tidy n = ground arith

subscriber_links-keeps :
    (l : Link) (es : List SubscriberEvent) → Tidy l → Tidy (subscriber_links l es)
unfolding subscriber_links
subscriber_links-keeps l [] t = t
subscriber_links-keeps l (e ∷ es) t =
    subscriber_links-keeps (subscriber_step l e) es (subscriber_step-Tidy l e t)

-- After any events of a subscriber: every peer connection that it made is closed, but the last one;
-- and only connections that were made are closed or the last one.
pub subscriber_links-Tidy : (es : List SubscriberEvent) → Tidy (subscriber_links new_link es)
subscriber_links-Tidy es = subscriber_links-keeps new_link es new_link-Tidy

publisher_links-keeps :
    (l : Link) (es : List PublisherEvent)
    → All TakesTracks es
    → Tidy l
    → Tidy (publisher_links l es)
unfolding publisher_links
publisher_links-keeps l [] k t = t
publisher_links-keeps l (e ∷ es) k t =
    publisher_links-keeps (publisher_step l e) es k.1 (publisher_step-Tidy l e k.0 t)

publisher_links-Abandoned :
    (m : ℕ) (l : Link) (es : List PublisherEvent)
    → Abandoned m l
    → Abandoned m (publisher_links l es)
unfolding publisher_links
publisher_links-Abandoned m l [] t = t
publisher_links-Abandoned m l (e ∷ es) t =
    publisher_links-Abandoned m (publisher_step l e) es (publisher_step-Abandoned m l e t)

publisher_reconnected_lost :
    (l : Link) → Tidy l → Abandoned l.next (publisher_reconnected true false l)
unfolding publisher_reconnected is_closed
publisher_reconnected_lost l t = ((ground (arith)), (ground (arith, t l.next)), lost l.last t)
  where
    lost :
        (p : Option ℕ)
        → IsTidy p l.next l.calls
        → is_closed l.next
            (close_last p l.calls ++ installs l.next ∷ takes_tracks l.next ∷ refreshes ∷ [])
          ≡ false
    lost none i = ground (
      arith,
      i l.next,
      is_closed-close_last l.next none l.calls
          (installs l.next ∷ takes_tracks l.next ∷ refreshes ∷ []) refl,
    )
    lost (some m) i = ground (
      arith,
      i l.next,
      i m,
      is_closed-close_last l.next (some m) l.calls
          (installs l.next ∷ takes_tracks l.next ∷ refreshes ∷ []) refl,
    )

-- After any events of a publisher by which every new connection took its tracks: every connection
-- that it made is closed, but the last one, and only connections that were made are closed or the
-- last one. A next connection that does not take the tracks is never closed, whatever comes then.
pub publisher_links_cases :
    (es later : List PublisherEvent)
    → All TakesTracks es
    → Tidy (publisher_links new_link es)
      × (is_closed
            (publisher_links new_link es).next
            (publisher_links
              (publisher_step (publisher_links new_link es) (PublisherEvent.reconnects true false))
              later).calls
          ≡ false)
unfolding publisher_step
publisher_links_cases es later k =
    let l = publisher_links new_link es in
    let t = publisher_links-keeps new_link es k new_link-Tidy in
    (
      t,
      (publisher_links-Abandoned l.next (publisher_reconnected true false l) later
          (publisher_reconnected_lost l t)).2,
    )
