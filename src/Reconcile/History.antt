-- ===== src/Reconcile/History.antt =====
-- A wallet's life as a sequence of movements, tried by anybody with any arguments, and the ledger
-- that it leaves behind.
use mathlib.Core.Path.{ap₂, subst, subst₂}
use wagering_wallet_service.Base.{
  Bool-cases, Failure, ok, err, Uuid, Instant, ℤ, pos, int_laws, InInt64, ◌+ℤ◌, ◌-ℤ◌, ◌≡◌, sym, ap,
  ◌∙◌, ◌⊎◌, inl, inr, true, Option, none, some, List, [], ◌∷◌, arith,
}
use wagering_wallet_service.Money.{Money, is_zero}
use wagering_wallet_service.Wallet.{Direction, LedgerEntry, Wallet, move, open_wallet}
use wagering_wallet_service.Wallet.Entry.{after}
use wagering_wallet_service.Wallet.Movement.{IsValid, move-ok, move-err}
use wagering_wallet_service.Wallet.Opening.{Opened, open_wallet-ok}

-- The entry of a funded opening, newest first.
abbrev pub first_entries : Option LedgerEntry → List LedgerEntry
first_entries none = []
first_entries (some e) = e ∷ []

-- The wallets and ledgers that a service can reach: an opening, then movements, each of which writes
-- its entry when it succeeds and nothing when it fails. The newest entry comes first.
pub data History : List LedgerEntry → Wallet → Type 0 where
  opened :
      (id player_id : Uuid) (initial : Money) (operation key : Uuid) (now : Instant) (w : Wallet)
      (entry : Option LedgerEntry)
      → InInt64 initial.minor
      → open_wallet id player_id initial operation key now ≡ ok (w, entry)
      → History (first_entries entry) w
  moved :
      {ledger : List LedgerEntry} {w : Wallet} (d : Direction) (operation : Uuid) (amount : Money)
      (key : Uuid) (now : Instant) (e : LedgerEntry) (w' : Wallet)
      → History ledger w
      → InInt64 amount.minor
      → move d operation amount key now w ≡ (ok e, w')
      → History (e ∷ ledger) w'
  refused :
      {ledger : List LedgerEntry} {w : Wallet} (d : Direction) (operation : Uuid) (amount : Money)
      (key : Uuid) (now : Instant) (f : Failure)
      → History ledger w
      → (move d operation amount key now w).0 ≡ err f
      → History ledger (move d operation amount key now w).1

pub History-IsValid : {ledger : List LedgerEntry} {w : Wallet} → History ledger w → IsValid w
History-IsValid (opened id player_id initial operation key now w entry fits h) =
    (open_wallet-ok id player_id initial operation key now fits h).valid
History-IsValid (moved {w = w} d operation amount key now e w' past fits h) =
    (move-ok d operation amount key now w (History-IsValid past) fits h).valid
History-IsValid (refused {w = w} d operation amount key now f past h) =
    rw (move-err d operation amount key now w h) (History-IsValid past)

-- The newest entry ends in the balance `b` at version `v`; each entry starts from the balance in
-- which the one before it ended, one version earlier, and is exact; the oldest starts from zero.
abbrev pub Chain : ℤ → ℤ → List LedgerEntry → Type 0
Chain b v [] = (b ≡ pos 0) × ((v ≡ pos 0) ⊎ (v ≡ pos 1))
Chain b v (e ∷ ledger) =
    (e.balance_after.minor ≡ b)
    × (e.wallet_version ≡ v)
    × (b ≡ after e.direction e.balance_before.minor e.amount.minor)
    × Chain e.balance_before.minor (v -ℤ pos 1) ledger

abbrev pub AllOn : Uuid → List LedgerEntry → Type 0
AllOn wallet_id [] = Unit
AllOn wallet_id (e ∷ ledger) = (e.wallet_id ≡ wallet_id) × AllOn wallet_id ledger

zero_minor : (m : Money) → is_zero m ≡ true → m.minor ≡ pos 0
zero_minor m h = ground arith

first-Chain :
    (initial : Money) (operation : Uuid) (w : Wallet) (entry : Option LedgerEntry)
    → Opened initial operation w entry
    → Chain w.balance.minor w.version (first_entries entry) × AllOn w.id (first_entries entry)
first-Chain initial operation w entry o = elim (Bool-cases (is_zero initial)) [
  | inl unfunded ↦
      rw (o.unfunded unfunded)
        ((ap (λ (m : Money). m.minor) o.balance ∙ zero_minor initial unfunded, inr o.version), tt)
  | inr funded ↦
      let (e, some_entry, consistent, own, of_operation, directed, from_zero, ends, version) =
        o.funded funded in
      let end : e.balance_after.minor ≡ w.balance.minor =
        ap (λ (m : Money). m.minor) (ends ∙ sym o.balance) in
      rw some_entry (
        (
          end,
          version ∙ sym o.version,
          sym end ∙ consistent.moved,
          (from_zero, inl (rw o.version (omega int_laws))),
        ),
        (own, tt),
      )
]

step_back : (v : ℤ) → (v +ℤ pos 1) -ℤ pos 1 ≡ v
step_back v = omega int_laws

-- Balances and versions chain over the whole life of a wallet, and every entry is its own.
pub History-Chain :
    {ledger : List LedgerEntry} {w : Wallet}
    → History ledger w
    → Chain w.balance.minor w.version ledger × AllOn w.id ledger
History-Chain (opened id player_id initial operation key now w entry fits h) =
    first-Chain initial operation w entry
      (open_wallet-ok id player_id initial operation key now fits h)
History-Chain (moved {ledger = ledger} {w = w} d operation amount key now e w' past fits h) =
    let r = move-ok d operation amount key now w (History-IsValid past) fits h in
    let (chain, own) = History-Chain past in
    let start : e.balance_before.minor ≡ w.balance.minor = ap (λ (m : Money). m.minor) r.starts in
    let earlier : w'.version -ℤ pos 1 ≡ w.version =
      ap (λ (v : ℤ). v -ℤ pos 1) r.next_version ∙ step_back w.version in
    (
      (
        ap (λ (m : Money). m.minor) r.ends,
        r.numbered,
        r.exact
            ∙ ap₂ (λ (x : Direction × ℤ) (y : ℤ). after x.0 x.1 y)
                (ap₂ (λ (d : Direction) (b : ℤ). (d, b)) (sym r.directed) (sym start))
                (ap (λ (m : Money). m.minor) (sym r.of_amount)),
        subst₂ (λ b v. Chain b v ledger) (sym start) (sym earlier) chain,
      ),
      (r.on_wallet ∙ sym r.same_id, subst (λ k. AllOn k ledger) (sym r.same_id) own),
    )
History-Chain (refused {w = w} d operation amount key now f past h) =
    rw (move-err d operation amount key now w h) (History-Chain past)
