-- ===== src/Cursor/Restore.antt =====
-- `restoreCursor` of src/payments/payment-cursor.service.ts: where a restarted detector goes on.
use orbit_stream_backend.Common.{
  ◌≡◌, ◌⊎◌, refl, sym, ap, subst, ◌∙◌, inl, inr, true, false, Option, some, arith, Bool-cases,
}
use orbit_stream_backend.Common.Text.{Text, is_empty}
use orbit_stream_backend.Cursor.{
  CursorStore, is_numeric, is_ahead, safe_cursor, restore_from, restore_cursor,
  get_latest_checkpoint,
}

pub is_ahead_irrefl : (a : Text) → is_ahead a a ≡ false
unfolding is_ahead
is_ahead_irrefl a = elim (Bool-cases (is_numeric a)) [
  | inl b ↦ rw b (ground arith)
  | inr b ↦ rw b refl
]

safe_lem :
    (stored checkpoint : Text)
    → is_empty checkpoint ≡ false
    → is_ahead (safe_cursor stored (some checkpoint)) checkpoint ≡ false
safe_lem stored checkpoint given = elim (Bool-cases (is_ahead stored checkpoint)) [
  | inl b ↦ rw (given, b) (is_ahead_irrefl checkpoint)
  | inr b ↦ rw (given, b) b
]

which :
    (a b : Text)
    → (safe_cursor a (some b) ≡ a) ⊎ ((safe_cursor a (some b) ≡ b) × (is_ahead a b ≡ true))
which a b = elim (Bool-cases (is_empty b)) [
  | inl e ↦ inl (rw e refl)
  | inr e ↦ elim (Bool-cases (is_ahead a b)) [
    | inl c ↦ inr (rw (e, c) refl, c)
    | inr c ↦ inl (rw (e, c) refl)
  ]
]

stored_given :
    (stored : Text) (o : Option Text)
    → is_empty stored ≡ false
    → restore_from (some stored) o ≡ safe_cursor stored o
stored_given stored o given = rw given refl

restored :
    (st : CursorStore) (stored checkpoint : Text)
    → st.cursor ≡ some stored
    → get_latest_checkpoint st ≡ some checkpoint
    → is_empty stored ≡ false
    → restore_cursor st ≡ safe_cursor stored (some checkpoint)
unfolding restore_cursor
restored st stored checkpoint e e' given =
    ap (λ c. restore_from c (get_latest_checkpoint st)) e
    ∙ ap (restore_from (some stored)) e'
    ∙ stored_given stored (some checkpoint) given

-- A detector whose cursor is stored goes on from a place that is not ahead of the latest checkpoint:
-- from the stored cursor or, if this is ahead, from the checkpoint.
pub restore_cursor-not_ahead :
    (st : CursorStore) (stored checkpoint : Text)
    → st.cursor ≡ some stored
    → get_latest_checkpoint st ≡ some checkpoint
    → is_empty stored ≡ false
    → is_empty checkpoint ≡ false
    → (is_ahead (restore_cursor st) checkpoint ≡ false)
      × ((restore_cursor st ≡ stored)
          ⊎ ((restore_cursor st ≡ checkpoint) × (is_ahead stored checkpoint ≡ true)))
restore_cursor-not_ahead st stored checkpoint e e' given given' =
    let Goal : Text → Type 0 = λ r.
      (is_ahead r checkpoint ≡ false)
      × ((r ≡ stored) ⊎ ((r ≡ checkpoint) × (is_ahead stored checkpoint ≡ true))) in
    subst Goal (sym (restored st stored checkpoint e e' given))
      (safe_lem stored checkpoint given', which stored checkpoint)
