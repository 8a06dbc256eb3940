-- ===== src/Sxu/Bridge/Entrances.antt =====
-- The entrances of a bridge (pkg/sxu/bridge/bridge.go) after its updates.
use dion.Prelude.{
  Bool, true, false, ◌&&◌, ◌||◌, none, List, [], ◌∷◌, ◌≡◌, ◌⊎◌, inl, inr, refl, arith, String,
  String-discrete, is_some, if◌then◌else◌, Bool-cases,
}
use dion.Prelude.GoMap.{GoMap, get, put, get-put}
use dion.Proto.{Ion, Message, ProceedTrack}
use dion.Util.SetMap.Laws.{member}
use dion.Sxu.Bridge.{
  Bridge, create_missing, sid_set, remove_deprecated, new_bridge, other_session, update_entrances,
  update_bridge, update_bridges,
}

abbrev pub has_entrance : {ion : Ion} → Bridge ion → String → Bool
has_entrance b sid = is_some (get String-discrete sid b.entrances)

created :
    (sids : List String) (m : GoMap String (Unit {0})) (k : String)
    → is_some (get String-discrete k (create_missing sids m))
      ≡ member String-discrete k sids || is_some (get String-discrete k m)
unfolding create_missing member
created [] m k = refl
created (sid ∷ rest) m k = ground (
  arith,
  created rest (if is_some (get String-discrete sid m) then m else put String-discrete sid tt m) k,
  get-put String-discrete k sid tt m,
)

in_set :
    (sids : List String) (m : GoMap String Bool) (k : String)
    → is_some (get String-discrete k (sid_set sids m))
      ≡ member String-discrete k sids || is_some (get String-discrete k m)
unfolding sid_set member
in_set [] m k = refl
in_set (sid ∷ rest) m k =
    ground
      (arith, in_set rest (put String-discrete sid true m) k, get-put String-discrete k sid true m)

kept_in :
    (set : GoMap String Bool) (m : GoMap String (Unit {0})) (k : String)
    → is_some (get String-discrete k (remove_deprecated set m).0)
      ≡ is_some (get String-discrete k set) && is_some (get String-discrete k m)
unfolding remove_deprecated get
kept_in set [] k = ground arith
kept_in set ((sid, e) ∷ rest) k = ground (arith, kept_in set rest k)

module _ {ion : Ion} (message : Message (ProceedTrack ion))
    (update_procedure : ProceedTrack ion → Bool) where
  updated_entrances :
      (sids : List String) (b : Bridge ion) (k : String)
      → has_entrance (update_entrances message update_procedure sids b) k
        ≡ member String-discrete k sids
  unfolding update_entrances get
  updated_entrances sids b k = ground (
    arith,
    kept_in (sid_set sids []) (create_missing sids b.entrances) k,
    in_set sids [] k,
    created sids b.entrances k,
  )

  no_track :
      (params : List (ProceedTrack ion)) (b : Bridge ion)
      → b.track ≡ none
      → (update_bridges message update_procedure params b).track ≡ none
  unfolding update_bridges update_bridge update_entrances
  no_track [] b h = h
  no_track (param ∷ rest) b h =
      no_track rest (update_bridge message update_procedure param b).1 (ground arith)

  -- An update of a bridge that was made and updated before, whatever sessions those updates were
  -- for: it succeeds exactly if the processor takes the procedure; then there is an entrance for
  -- each source session of the track and no other; and else the bridge is as before.
  pub update_bridge_cases :
      (before : List (ProceedTrack ion)) (param : ProceedTrack ion)
      → let b =
          update_bridges message update_procedure before (new_bridge message update_procedure) in
        let (ok, after) = update_bridge message update_procedure param b in
        ((ok ≡ true)
          × (update_procedure param ≡ true)
          × ((sid : String)
              → has_entrance after sid ≡ member String-discrete sid param.src_session_id_list))
        ⊎ ((ok ≡ false) × (update_procedure param ≡ false) × (after ≡ b))
  unfolding update_bridge other_session update_bridges
  update_bridge_cases before param =
      let b =
        update_bridges message update_procedure before (new_bridge message update_procedure) in
      let n : b.track ≡ none =
        no_track before (new_bridge message update_procedure) (unfold new_bridge in refl) in
      elim (Bool-cases (update_procedure param)) [
        | inl e ↦ inl (
            rw (n, message.clone_lem param, e)
              (refl, refl, λ sid. updated_entrances param.src_session_id_list b sid))
        | inr e ↦ inr (rw (n, message.clone_lem param, e) (refl, refl, refl))
      ]
