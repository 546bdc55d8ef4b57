-- ===== src/Store/Claims.antt =====
-- The operations that a claim reads: their amounts are those of their rows.
use mathlib.Core.Path.{subst}
use wagering_wallet_service.Base.{
  Bool-cases, Result-cases, ok, Instant, select, take, All, InInt64, all, ℕ, zero, suc, ◌≡◌, sym,
  ap, inl, inr, Bool, List, [], ◌∷◌, arith,
}
use wagering_wallet_service.Money.{Money}
use wagering_wallet_service.Wagering.Transaction.{Transaction}
use wagering_wallet_service.Wagering.Snapshot.{Snapshot}
use wagering_wallet_service.Wagering.Snapshot.Stored.{snapshot_of, rehydrate-ok}
use wagering_wallet_service.Store.{Session}
use wagering_wallet_service.Store.Triple.{Triple, pure_result-ok}
use wagering_wallet_service.Store.Books.{Sound, HasAmount}
use wagering_wallet_service.Store.Transactions

-- Reading rows keeps their amounts.
scan-amount : (row t : Transaction) → Transactions.scan row ≡ ok t → HasAmount row → HasAmount t
unfolding snapshot_of
scan-amount row t h fits =
    subst (λ (m : Money). InInt64 m.minor)
      (ap (λ (s : Snapshot). s.amount) (sym (rehydrate-ok (snapshot_of row) h).0)) fits

pub scan_all-All :
    (rows : List Transaction) {ts : List Transaction}
    → Transactions.scan_all rows ≡ ok ts
    → All HasAmount rows
    → All HasAmount ts
unfolding Transactions.scan_all
scan_all-All [] {ts} h fits = subst (All HasAmount) {x = []} {y = ts} (ground (arith, h)) tt
scan_all-All (row ∷ rows) {ts} h (here, there) = elim (Result-cases (Transactions.scan row)) [
  | inl (t, read) ↦ elim (Result-cases (Transactions.scan_all rows)) [
    | inl (rest, done) ↦
        subst (All HasAmount) {x = t ∷ rest} {y = ts} (ground (arith, h, read, done))
          (scan-amount row t read here, scan_all-All rows done there)
    | inr (e, refused) ↦ absurd (ground (arith, h, read, refused))
  ]
  | inr (e, refused) ↦ absurd (ground (arith, h, refused))
]

select-All :
    (p : Transaction → Bool) (ts : List Transaction)
    → All HasAmount ts
    → All HasAmount (select p ts)
select-All p [] fits = tt
select-All p (t ∷ ts) (here, there) = elim (Bool-cases (p t)) [
  | inl chosen ↦ rw chosen (here, select-All p ts there)
  | inr other ↦ rw other (select-All p ts there)
]

insert_ordered-All :
    (t : Transaction) (ts : List Transaction)
    → HasAmount t
    → All HasAmount ts
    → All HasAmount (Transactions.insert_ordered t ts)
unfolding Transactions.insert_ordered
insert_ordered-All t [] fits all = (fits, tt)
insert_ordered-All t (u ∷ us) fits (here, there) =
    elim (Bool-cases (Transactions.comes_before t u)) [
      | inl first ↦ rw first (fits, (here, there))
      | inr later ↦ rw later (here, insert_ordered-All t us fits there)
    ]

ordered-All : (ts : List Transaction) → All HasAmount ts → All HasAmount (Transactions.ordered ts)
unfolding Transactions.ordered
ordered-All [] all = tt
ordered-All (t ∷ ts) (here, there) =
    insert_ordered-All t (Transactions.ordered ts) here (ordered-All ts there)

take-All : (n : ℕ) (ts : List Transaction) → All HasAmount ts → All HasAmount (take n ts)
take-All zero ts all = tt
take-All (suc n) [] all = tt
take-All (suc n) (t ∷ ts) (here, there) = (here, take-All n ts there)

pub claim-Triple :
    (now : Instant) (limit : ℕ)
    → Triple
        (λ s. Sound s.store)
        (Transactions.claim_due_pending now limit)
        (λ ts s. All HasAmount ts × Sound s.store)
unfolding Transactions.due_in
claim-Triple now limit s sound ts s' h =
    let due = select (Transactions.is_due now) s.store.transactions in
    let (read, same) = pure_result-ok (Transactions.due_in now limit s.store) s h in
    (
      scan_all-All (take limit (Transactions.ordered due)) read (
          take-All limit (Transactions.ordered due)
            (ordered-All due (select-All (Transactions.is_due now) s.store.transactions sound.1))),
      subst (λ (t : Session). Sound t.store) same sound,
    )
