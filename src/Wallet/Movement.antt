-- ===== src/Wallet/Movement.antt =====
-- Debits and credits: what a movement does to a wallet on each branch.
use wagering_wallet_service.Base.{
  Failure, Result, Result-cases, ok, err, Uuid, nil_uuid, Instant, no_time, pos, ◌≤ℤ◌, +ℤ_parts,
  InInt64, wrap64_self, wrap64-InInt64, wrap64_above, parts_apart, ◌+ℤ◌, wrap64, ◌≡◌, refl, sym, ap,
  ◌∙◌, ◌≢◌, ◌⊎◌, inl, inr, true, arith,
}
use wagering_wallet_service.Money.{Money, supported, is_valid}
use wagering_wallet_service.Money.Exact.{currency_eq→eq}
use wagering_wallet_service.Money.Inverse.{Moved}
use wagering_wallet_service.Wallet.{
  Direction, LedgerEntry, Wallet, apply_direction, new_ledger_entry, move_entry, write_back, move,
}
use wagering_wallet_service.Wallet.Entry.{
  after, IsConsistent, apply_direction-ok, new_ledger_entry-ok,
}

-- What a stored wallet satisfies.
pub record IsValid (w : Wallet) : Type 0 where
  pub id_given : w.id ≢ nil_uuid
  pub player_given : w.player_id ≢ nil_uuid
  pub known : is_valid w.balance ≡ true
  pub nonneg : pos 0 ≤ℤ w.balance.minor
  pub fits : InInt64 w.balance.minor
  pub versioned : pos 1 ≤ℤ w.version
  pub version_fits : InInt64 w.version
  pub created : w.created_at ≢ no_time
  pub updated : w.updated_at ≢ no_time

-- The entry and the wallet that a movement from `w` to `w'` has made.
pub record Records (d : Direction) (operation : Uuid) (amount : Money) (key : Uuid) (now : Instant)
    (w w' : Wallet) (e : LedgerEntry) : Type 0 where
  pub consistent : IsConsistent e
  pub keyed : e.id ≡ key
  pub on_wallet : e.wallet_id ≡ w.id
  pub of_operation : e.transaction_id ≡ operation
  pub directed : e.direction ≡ d
  pub of_amount : e.amount ≡ amount
  pub starts : e.balance_before ≡ w.balance
  pub ends : e.balance_after ≡ w'.balance
  pub numbered : e.wallet_version ≡ w'.version
  pub dated : e.created_at ≡ now
  pub exact : w'.balance.minor ≡ after d w.balance.minor amount.minor
  pub next_version : w'.version ≡ w.version +ℤ pos 1
  pub same_id : w'.id ≡ w.id
  pub same_player : w'.player_id ≡ w.player_id
  pub same_currency : w'.balance.currency ≡ w.balance.currency
  pub same_created : w'.created_at ≡ w.created_at
  pub touched : w'.updated_at ≡ now
  pub valid : IsValid w'

module _ (d : Direction) (transaction_id : Uuid) (amount : Money) (entry_id : Uuid) (now : Instant)
    (w : Wallet) where
  pub entry_with : Money → LedgerEntry
  entry_with updated = record {
    id = entry_id;
    wallet_id = w.id;
    transaction_id = transaction_id;
    direction = d;
    amount = amount;
    balance_before = w.balance;
    balance_after = updated;
    wallet_version = wrap64 (w.version +ℤ pos 1);
    created_at = now;
  }

  -- A successful `move` passed its checks, applied the direction and built the entry.
  move_entry-steps :
      {e : LedgerEntry}
      → move_entry d transaction_id amount entry_id now w ≡ ok e
      → (updated : Money) × (apply_direction w.balance d amount ≡ ok updated)
        × (new_ledger_entry (entry_with updated) ≡ ok e)
        × (amount.currency ≡ w.balance.currency)
  unfolding move_entry entry_with
  move_entry-steps {e} h = elim (Result-cases (apply_direction w.balance d amount)) [
    | inl (updated, applied) ↦ (
      updated,
      applied,
      ground arith,
      ground (arith, currency_eq→eq amount.currency w.balance.currency),
    )
    | inr (f, failed) ↦ absurd (ground arith)
  ]

  move-cases :
      ((e : LedgerEntry) × (move_entry d transaction_id amount entry_id now w ≡ ok e)
        × (move d transaction_id amount entry_id now w ≡ (ok e, write_back now w e)))
      ⊎ ((f : Failure) × (move d transaction_id amount entry_id now w ≡ (err f, w)))
  unfolding move
  move-cases = elim (Result-cases (move_entry d transaction_id amount entry_id now w)) [
    | inl (e, built) ↦ inl (e, built, ground arith)
    | inr (f, failed) ↦ inr (f, ground arith)
  ]

  next_version_lem :
      IsValid w
      → pos 1 ≤ℤ wrap64 (w.version +ℤ pos 1)
      → (wrap64 (w.version +ℤ pos 1) ≡ w.version +ℤ pos 1)
  next_version_lem v h = ground (
    arith,
    v.version_fits,
    parts_apart w.version,
    parts_apart (w.version +ℤ pos 1),
    +ℤ_parts w.version (pos 1),
    wrap64_self (w.version +ℤ pos 1),
    wrap64_above (w.version +ℤ pos 1),
    parts_apart (wrap64 (w.version +ℤ pos 1)),
  )

  write_back-Records :
      IsValid w
      → {updated : Money} → Moved w.balance amount (after d w.balance.minor amount.minor) updated
      → IsConsistent (entry_with updated)
      → Records d transaction_id amount entry_id now w
          (write_back now w (entry_with updated))
          (entry_with updated)
  unfolding write_back entry_with
  write_back-Records v {updated} moved c =
      let next = next_version_lem v c.versioned in
      record {
        consistent = c;
        keyed = refl;
        on_wallet = refl;
        of_operation = refl;
        directed = refl;
        of_amount = refl;
        starts = refl;
        ends = refl;
        numbered = refl;
        dated = refl;
        exact = moved.exact;
        next_version = next;
        same_id = refl;
        same_player = refl;
        same_currency = moved.kept;
        same_created = refl;
        touched = refl;
        valid = record {
          id_given = v.id_given;
          player_given = v.player_given;
          known = ap supported moved.kept ∙ v.known;
          nonneg = c.after_nonneg;
          fits = moved.fits;
          versioned = c.versioned;
          version_fits = wrap64-InInt64 (w.version +ℤ pos 1);
          created = v.created;
          updated = c.dated;
        };
      }

  entry_with-same :
      {e : LedgerEntry} (updated : Money)
      → IsValid w
      → InInt64 amount.minor
      → new_ledger_entry (entry_with updated) ≡ ok e
      → (e ≡ entry_with updated) × IsConsistent (entry_with updated)
  unfolding entry_with
  entry_with-same updated v fits h = new_ledger_entry-ok (entry_with updated) fits v.fits h

  -- A successful movement of a valid wallet writes exactly what it did: the entry starts from the
  -- old balance and ends in the new one, which is the exact sum or difference; the version grows
  -- by one; the wallet stays valid.
  pub move-ok :
      IsValid w
      → InInt64 amount.minor
      → {e : LedgerEntry} {w' : Wallet} → move d transaction_id amount entry_id now w ≡ (ok e, w')
      → Records d transaction_id amount entry_id now w w' e
  move-ok v fits {e} {w'} h = elim move-cases [
    | inl (e', built, done) ↦
        let (updated, applied, accepted, same_currency) = move_entry-steps built in
        let moved = apply_direction-ok d w.balance amount v.fits fits applied in
        let (same, consistent) = entry_with-same updated v fits accepted in
        let left : e ≡ entry_with updated = ground (arith, same) in
        let right : w' ≡ write_back now w (entry_with updated) =
          ap (λ (p : Result LedgerEntry × Wallet). p.1) (sym h ∙ done)
          ∙ ap (write_back now w) same in
        rw (left, right) (write_back-Records v moved consistent)
    | inr (f, failed) ↦ absurd (ground arith)
  ]

  -- A movement that fails leaves the wallet as it was.
  pub move-err :
      {f : Failure}
      → (move d transaction_id amount entry_id now w).0 ≡ err f
      → (move d transaction_id amount entry_id now w).1 ≡ w
  move-err {f} h = elim move-cases [
    | inl (e, built, done) ↦ ground arith
    | inr (f', failed) ↦ ground arith
  ]
