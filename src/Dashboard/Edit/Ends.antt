-- ===== src/Dashboard/Edit/Ends.antt =====
-- How saving an edit ends in internal/server/web/static/dashboard.js.
use certguard.Base.{
  ℕ, suc, ◌≡◌, refl, ◌⊎◌, inl, inr, String, true, false, not, ◌&&◌, ◌||◌, Option, none, some,
  if-intro, arith, Bool, ◌==◌, if◌then◌else◌,
}
use certguard.Base.Text.{is_set}
use certguard.Inventory.Filter.{trim}
use certguard.Vault.{Crypto, is_unlocked}
use certguard.VaultUi.{Answer, failed, refused, answered, Accepted, through_api, unauthenticated}
use certguard.Dashboard.Edit.{
  Body, Session, Desk, secret_body, put_then, saved, after_patch, save_as, save_edit, close_edit,
  send, patch_cert,
}

abbrev pub IsAccepted : Answer Accepted → Type 0
IsAccepted (answered _) = Unit
IsAccepted _ = ⊥

-- The dialog is closed and the list is read again.
pub record IsClosed (d q : Desk) : Type 0 where
  pub id : q.editing_id ≡ none
  pub dialog : q.dialog_shown ≡ false
  pub reload : q.loads ≡ suc d.loads

-- The dialog stands as it was, with what was typed.
pub record IsKept (d q : Desk) : Type 0 where
  pub id : q.editing_id ≡ d.editing_id
  pub dialog : q.dialog_shown ≡ d.dialog_shown
  pub form : q.form ≡ d.form
  pub reload : q.loads ≡ d.loads

kept : (d : Desk) → IsKept d d
kept d = record { id = refl; dialog = refl; form = refl; reload = refl }

module _ (c : Crypto) (ss : Session) where
  put_then-Ends :
      (id : ℕ) (o : Option Body) (put : Answer Accepted) (d : Desk)
      → IsClosed d (put_then c id o put (saved c) d) ⊎ IsKept d (put_then c id o put (saved c) d)
  unfolding close_edit
  put_then-Ends id none put d = inr (kept d)
  put_then-Ends id (some body) (failed _) d =
      inr (record { id = refl; dialog = refl; form = refl; reload = refl })
  put_then-Ends id (some body) (refused _ _) d =
      inl (record { id = refl; dialog = refl; reload = refl })
  put_then-Ends id (some body) (answered _) d =
      inl (record { id = refl; dialog = refl; reload = refl })

  -- What may follow the answer to the first request.
  abbrev pub Ends : Answer Accepted → Desk → Desk → Type 0
  Ends patch d q = (IsAccepted patch × IsClosed d q) ⊎ IsKept d q

  after_patch-Ends :
      (id : ℕ) (patch put : Answer Accepted) (d : Desk)
      → Ends patch d (after_patch c ss id patch put d)
  unfolding close_edit
  after_patch-Ends id (failed _) put d = inr (kept d)
  after_patch-Ends id (refused _ e) put d =
      inr (record { id = refl; dialog = refl; form = refl; reload = refl })
  after_patch-Ends id (answered a) put d =
      if-intro (Ends (answered a) d) (is_set d.form.secret || d.form.clear_secret)
        (λ _.
          if-intro (Ends (answered a) d) (ss.zk_enabled && not (is_unlocked ss.dek))
            (λ _. inr (record { id = refl; dialog = refl; form = refl; reload = refl }))
            (λ _. elim (put_then-Ends id (secret_body c ss d.form.secret) put d) [
              | inl closed ↦ inl (tt, closed)
              | inr stays ↦ inr stays
            ]))
        (λ _. inl (tt, record { id = refl; dialog = refl; reload = refl }))

  -- However the server answers, saving an edit either closes the dialog and reads the list again, and then the name
  -- was not blank and the server had accepted the change, or leaves the dialog with everything
  -- that was typed.
  pub save_edit-Ends :
      (patch put : Answer Accepted) (d : Desk)
      → ((is_set (trim d.form.name) ≡ true)
          × IsAccepted patch
          × IsClosed d (save_edit c ss patch put d))
        ⊎ IsKept d (save_edit c ss patch put d)
  unfolding save_edit
  save_edit-Ends patch put d = by_id d.editing_id
    where
      of_api : (a : Answer Accepted) → IsAccepted (through_api a) → IsAccepted a
      of_api (failed _) h = h
      of_api (answered _) h = h
      of_api (refused status e) h = not_accepted (status == 401) h
        where
          not_accepted :
              (b : Bool) → IsAccepted (if b then failed unauthenticated else refused status e) → ⊥
          not_accepted true h = h
          not_accepted false h = h

      Result : Desk → Type 0
      Result q = ((is_set (trim d.form.name) ≡ true) × IsAccepted patch × IsClosed d q) ⊎ IsKept d q

      by_id : (id : Option ℕ) → Result (save_as c ss id (through_api patch) (through_api put) d)
      by_id none = inr (kept d)
      by_id (some id) =
          if-intro Result (not (is_set (trim d.form.name)))
            (λ _. inr (record { id = refl; dialog = refl; form = refl; reload = refl }))
            (λ named.
              elim (after_patch-Ends id (through_api patch) (through_api put)
                (send (patch_cert id (trim d.form.name) d.form.category d.form.notes) d)) [
                  | inl (yes_patch, closed) ↦ inl (
                    ground (arith, named),
                    of_api patch yes_patch,
                    record { id = closed.id; dialog = closed.dialog; reload = closed.reload },
                  )
                  | inr stays ↦ inr (record {
                    id = stays.id;
                    dialog = stays.dialog;
                    form = stays.form;
                    reload = stays.reload;
                  })
                ])

  -- Whether the server stores the secret or refuses to, with any status but 401, saving an edit ends
  -- in the same way: the refusal is not noticed.
  pub save_edit-refused :
      (patch : Answer Accepted) (status : ℕ) (message : String) (d : Desk)
      → status == 401 ≡ false
      → save_edit c ss patch (refused status message) d ≡ save_edit c ss patch (answered tt) d
  unfolding save_edit
  save_edit-refused patch status message d other =
      simp (other, by_id d.editing_id (through_api patch))
    where
      same_put :
          (id : ℕ) (o : Option Body) (d : Desk)
          → put_then c id o (refused status message) (saved c) d
            ≡ put_then c id o (answered tt) (saved c) d
      same_put id none d = refl
      same_put id (some body) d = refl

      by_patch :
          (id : ℕ) (patch : Answer Accepted) (d : Desk)
          → after_patch c ss id patch (refused status message) d
            ≡ after_patch c ss id patch (answered tt) d
      by_patch id (failed _) d = refl
      by_patch id (refused _ e) d = refl
      by_patch id (answered _) d = simp (same_put id (secret_body c ss d.form.secret) d)

      by_id :
          (id : Option ℕ) (patch : Answer Accepted)
          → save_as c ss id patch (refused status message) d ≡ save_as c ss id patch (answered tt) d
      by_id none patch = refl
      by_id (some id) patch = simp (
          by_patch id patch
            (send (patch_cert id (trim d.form.name) d.form.category d.form.notes) d))
