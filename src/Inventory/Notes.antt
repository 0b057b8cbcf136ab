-- ===== src/Inventory/Notes.antt =====
-- The notes field of internal/server/web/static/inventory.js: its `input` listener and `saveNotes`.
use certguard.Base.{
  ℕ, ◌≡◌, refl, sym, ◌∙◌, Bool, true, false, ◌==◌, Option, none, some, List, [], ◌∷◌, inl, inr,
  find, if◌then◌else◌, arith, Bool-cases, Option-cases,
}
use certguard.Base.Text.{Text, same}
use certguard.Inventory.Items.{Cert, Item}

-- The text area with its baseline, whether Save is disabled, and what stands beside it.
pub data Message : Type 0 where
  nothing : Message
  saving_mark : Message
  saved_mark : Message

pub record Field : Type 0 where
  pub value : Text
  pub orig : Text
  pub disabled : Bool
  pub message : Message

-- The request throws, as on a 401; `ok` is false; or the body's `notes`, if it is a string.
pub data Response : Type 0 where
  thrown : Response
  failed : Response
  updated : Option Text → Response

pub record Notes : Type 0 where
  pub items : List Item
  pub field : Field

unfoldable pub open_field : Cert → Field
open_field c = record { value = c.notes; orig = c.notes; disabled = true; message = nothing }

unfoldable pub input : Text → Field → Field
input v f = record f { value = v; disabled = same v f.orig; message = nothing }

abbrev pub text_or : Option Text → Text → Text
text_or none v = v
text_or (some t) v = t

-- `c.notes = …` on the entry that was found
unfoldable pub set_notes : ℕ → Text → List Item → List Item
set_notes id t [] = []
set_notes id t (it ∷ items) =
    let rest = set_notes id t items in
    if it.cert.id == id
    then record it { cert = record it.cert { notes = t } } ∷ items
    else it ∷ rest

abbrev pub item_of : ℕ → List Item → Option Item
item_of id items = find (λ (it : Item). it.cert.id == id) items

unfoldable pub save_notes : ℕ → Response → Notes → Notes
unfolding set_notes
save_notes id response n = elim (item_of id n.items) [
  | none ↦ n
  | some it ↦ elim response [
    | thrown ↦ record n { field = record n.field { disabled = true; message = saving_mark } }
    | failed ↦ record n { field = record n.field { disabled = false; message = nothing } }
    | updated body ↦
        let t = text_or body n.field.value in
        record {
          items = set_notes id t n.items;
          field = record n.field { orig = t; disabled = true; message = saved_mark };
        }
  ]
]

-- Save is disabled exactly when the text is the baseline.
abbrev pub IsInSync : Field → Type 0
IsInSync f = f.disabled ≡ same f.value f.orig

-- The server stores the text as it was sent, if it says what it stored.
abbrev pub Echoes : Text → Response → Type 0
Echoes v thrown = ⊥
Echoes v failed = Unit
Echoes v (updated none) = Unit
Echoes v (updated (some t)) = t ≡ v

abbrev pub notes_of : Option Item → Text
notes_of none = []
notes_of (some it) = it.cert.notes

same_refl : (t : Text) → same t t ≡ true
same_refl [] = refl
same_refl (c ∷ t) = ground (arith, same_refl t)

notes_of-set_notes :
    (id : ℕ) (t : Text) (items : List Item) (it : Item)
    → item_of id items ≡ some it
    → notes_of (item_of id (set_notes id t items)) ≡ t
unfolding set_notes
notes_of-set_notes id t [] it h = cc
notes_of-set_notes id t (x ∷ items) it h = elim (Bool-cases (x.cert.id == id)) [
  | inl e ↦ rw (e, e) refl
  | inr e ↦ rw (e, e) (notes_of-set_notes id t items it (rw e at h))
]

-- After a click on the enabled Save, Save is disabled exactly when the text is the baseline, whether
-- the server refused or stored the text, if it stores it as it was sent and the request does not
-- throw.
pub save_notes-IsInSync :
    (id : ℕ) (response : Response) (n : Notes)
    → IsInSync n.field
    → n.field.disabled ≡ false
    → Echoes n.field.value response
    → IsInSync (save_notes id response n).field
unfolding save_notes
save_notes-IsInSync id response n s d e = elim (Option-cases (item_of id n.items)) [
  | inl k ↦ rw (k, save_notes) s
  | inr (it, k) ↦ found it k response e
]
  where
    found :
        (it : Item)
        → item_of id n.items ≡ some it
        → (r : Response) → Echoes n.field.value r
        → IsInSync (save_notes id r n).field
    found it k thrown e = absurd e
    found it k failed e = rw (k, save_notes) (sym d ∙ s)
    found it k (updated none) e = rw (k, save_notes) (sym (same_refl n.field.value))
    found it k (updated (some t)) e = rw (k, save_notes, e) (sym (same_refl n.field.value))

-- After a save that succeeds, what is stored for the entry is the new baseline.
pub notes_of-save_notes :
    (id : ℕ) (body : Option Text) (n : Notes) (it : Item)
    → item_of id n.items ≡ some it
    → notes_of (item_of id (save_notes id (updated body) n).items)
      ≡ (save_notes id (updated body) n).field.orig
unfolding save_notes
notes_of-save_notes id body n it h =
    rw (h, save_notes) (notes_of-set_notes id (text_or body n.field.value) n.items it h)
