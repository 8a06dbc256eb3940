-- ===== src/Util/Items.antt =====
-- The items that the program keeps in a `DisorderSet`: util/stringimpl.go, util/pbimpl.go and the
-- status item of util/nodeimpl.go. `fmt.Sprintf` with the pattern of a key is a parameter.
pub mod Laws
use dion.Prelude.{
  Bool, ◌&&◌, true, false, List, [], ◌∷◌, String, String-discrete, ◌≡◌, refl, ap, arith, holds, map,
  if◌then◌else◌,
}
use dion.Proto.{Ion, ClientNeededSession, ForwardTrack, ProceedTrack, SfuStatus, Message}
use dion.Util.Set.{Item, Lawful, is_same, new_set_from_list}

abbrev pub same_text : String → String → Bool
same_text s t = holds (String-discrete s t)

-- `StringDisorderSetItem`
abbrev pub string_item : Item String
string_item = record { key = λ s. s; compare = λ s t. same_text t s; clone = λ s. s }

-- `ClientNeededSessionItem`; `format` makes its key from the user and the session.
abbrev pub client_item :
    (String → String → String) → Message ClientNeededSession → Item ClientNeededSession
client_item format m = record {
  key = λ c. format c.user c.session;
  compare = λ c d. same_text (m.text c) (m.text d);
  clone = m.clone;
}

module _ (ion : Ion) where
  -- `ForwardTrackItem`; `format` makes its key from the node and the remote session.
  abbrev pub forward_item :
      (String → String → String) → Message (ForwardTrack ion) → Item (ForwardTrack ion)
  forward_item format m = record {
    key = λ t. format (ion.nid t.src) t.remote_session_id;
    compare = λ t u. same_text (m.text t) (m.text u);
    clone = m.clone;
  }

  -- `ProceedTrackItem.Compare`: the source sessions are compared as sets first.
  unfoldable pub proceed_compare :
      Message (ProceedTrack ion) → ProceedTrack ion → ProceedTrack ion → Bool
  proceed_compare m t u =
      if is_same string_item (new_set_from_list string_item u.src_session_id_list)
        t.src_session_id_list
      then same_text (m.text t) (m.text u)
      else false

  -- `ProceedTrackItem`
  abbrev pub proceed_item : Message (ProceedTrack ion) → Item (ProceedTrack ion)
  proceed_item m = record {
    key = λ t. t.dst_session_id;
    compare = proceed_compare m;
    clone = m.clone;
  }

  -- `SFUStatusItem`
  abbrev pub status_item : Message (SfuStatus ion) → Item (SfuStatus ion)
  status_item m = record {
    key = λ s. ion.nid s.sfu;
    compare = λ s t. same_text (m.text s) (m.text t);
    clone = m.clone;
  }
