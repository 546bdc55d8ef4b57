-- ===== src/Usecase/LedgerPage/Cursor.antt =====
-- A page and its cursor: the next page starts where this one ended.
use mathlib.Core.Path.{subst, sym}
use wagering_wallet_service.Base.{
  pos, ltb, Bool-cases, select, take, All, ℤ, ltb_ℤ, length, all, ℕ, zero, suc, ◌≡◌, refl, ap, ◌∙◌,
  inl, inr, true, false, List, [], ◌∷◌, arith,
}
use wagering_wallet_service.Wallet.{LedgerEntry}
use wagering_wallet_service.Usecase.LedgerPage.{LedgerPage, last_version, ledger_page}

-- Versions grow along the list, as the unique constraint and the order of the query make them.
abbrev pub Ascending : List LedgerEntry → Type 0
Ascending [] = Unit
Ascending (e ∷ es) = All (λ f. ltb_ℤ e.wallet_version f.wallet_version ≡ true) es × Ascending es

abbrev pub drop : ℕ → List LedgerEntry → List LedgerEntry
drop zero es = es
drop (suc n) [] = []
drop (suc n) (_ ∷ es) = drop n es

-- The entries after a version.
abbrev pub after_version : ℤ → List LedgerEntry → List LedgerEntry
after_version v = select (λ e. ltb_ℤ v e.wallet_version)

after_version-All :
    (v : ℤ) (es : List LedgerEntry)
    → All (λ f. ltb_ℤ v f.wallet_version ≡ true) es
    → after_version v es ≡ es
after_version-All v [] all = refl
after_version-All v (e ∷ es) (here, there) =
    rw here (ap (λ x. e ∷ x) (after_version-All v es there))

-- The last of some entries that follow a version follows it too.
last_version-above :
    (v : ℤ) (e : LedgerEntry) (n : ℕ) (es : List LedgerEntry)
    → ltb_ℤ v e.wallet_version ≡ true
    → All (λ f. ltb_ℤ v f.wallet_version ≡ true) es
    → ltb_ℤ v (last_version e.wallet_version (take n es)) ≡ true
unfolding last_version
last_version-above v e zero es above all = above
last_version-above v e (suc n) [] above all = above
last_version-above v e (suc n) (f ∷ es) above (here, there) = last_version-above v f n es here there

below_itself : (v w : ℤ) → ltb_ℤ v w ≡ true → ltb_ℤ w v ≡ false
below_itself v w h = ground arith

not_below_itself : (v : ℤ) → ltb_ℤ v v ≡ false
not_below_itself v = ground arith

resume :
    (e : LedgerEntry) (n : ℕ) (es : List LedgerEntry)
    → Ascending (e ∷ es)
    → after_version (last_version e.wallet_version (take n es)) (e ∷ es) ≡ drop n es
unfolding last_version
resume e zero es (above, rest) =
    rw (not_below_itself e.wallet_version) (after_version-All e.wallet_version es above)
resume e (suc n) [] (above, rest) = rw (not_below_itself e.wallet_version) refl
resume e (suc n) (f ∷ es) ((here, there), rest) =
    rw
      (below_itself e.wallet_version (last_version f.wallet_version (take n es))
        (last_version-above e.wallet_version f n es here there))
      (resume f n es rest)

take-take : (n : ℕ) (es : List LedgerEntry) → take n (take (suc n) es) ≡ take n es
take-take zero es = refl
take-take (suc n) [] = refl
take-take (suc n) (e ∷ es) = ap (λ x. e ∷ x) (take-take n es)

take-short :
    (n : ℕ) (es : List LedgerEntry)
    → ltb n (length (take (suc n) es)) ≡ false
    → take (suc n) es ≡ es
take-short n [] short = refl
take-short zero (e ∷ es) short = absurd (ground (arith, short))
take-short (suc n) (e ∷ es) short = ap (λ x. e ∷ x) (take-short n es (ground (arith, short)))

-- The page of `suc n` entries, made from one entry more.
abbrev pub page_of : ℕ → List LedgerEntry → LedgerPage
page_of n entries = ledger_page (take (suc (suc n)) entries) (suc n)

-- What a page of `n` and one more entries says of the entries that it was made from.
Says : ℕ → List LedgerEntry → LedgerPage → Type 0
Says n entries p =
    (p.has_more ≡ true
      → (p.entries ≡ take (suc n) entries)
        × (after_version p.next_cursor entries ≡ drop (suc n) entries))
    × (p.has_more ≡ false → p.entries ≡ entries)

page_of-more :
    (n : ℕ) (entries : List LedgerEntry)
    → ltb (suc n) (length (take (suc (suc n)) entries)) ≡ true
    → page_of n entries ≡ record {
      entries = take (suc n) (take (suc (suc n)) entries);
      has_more = true;
      next_cursor = last_version (pos 0) (take (suc n) (take (suc (suc n)) entries));
    }
unfolding ledger_page
page_of-more n entries more = rw more refl

page_of-last :
    (n : ℕ) (entries : List LedgerEntry)
    → ltb (suc n) (length (take (suc (suc n)) entries)) ≡ false
    → page_of n entries
      ≡ record { entries = take (suc (suc n)) entries; has_more = false; next_cursor = pos 0 }
unfolding ledger_page
page_of-last n entries last = rw last refl

page_of-Says :
    (entries : List LedgerEntry) (n : ℕ) → Ascending entries → Says n entries (page_of n entries)
unfolding last_version Says
page_of-Says [] n ascending =
    subst (Says n []) (sym (page_of-last n [] (ground arith)))
      ((λ more. absurd (ground (arith, more))), λ none_left. refl)
page_of-Says (e ∷ es) n ascending =
    elim (Bool-cases (ltb (suc n) (length (take (suc (suc n)) (e ∷ es))))) [
      | inl more ↦ subst (Says n (e ∷ es)) (sym (page_of-more n (e ∷ es) more)) (
        (λ _. (
          take-take (suc n) (e ∷ es),
          ap (λ t. after_version (last_version e.wallet_version t) (e ∷ es)) (take-take n es)
              ∙ resume e n es ascending,
        )),
        λ none_left. absurd (ground (arith, none_left)),
      )
      | inr whole ↦
          subst (Says n (e ∷ es)) (sym (page_of-last n (e ∷ es) whole))
            ((λ more. absurd (ground (arith, more))), λ _. take-short (suc n) (e ∷ es) whole)
    ]

-- A page of one entry or more, made from one entry more than its limit, of entries whose versions
-- ascend: when it says that there are more, it holds the first of them up to the limit, and exactly the
-- entries that it left out have a version after its cursor; when it says that there are none, it holds
-- all of them.
pub ledger_page_lem :
    (entries : List LedgerEntry) (n : ℕ)
    → Ascending entries
    → ((page_of n entries).has_more ≡ true
        → ((page_of n entries).entries ≡ take (suc n) entries)
          × (after_version (page_of n entries).next_cursor entries ≡ drop (suc n) entries))
      × ((page_of n entries).has_more ≡ false → (page_of n entries).entries ≡ entries)
unfolding Says
ledger_page_lem = page_of-Says
