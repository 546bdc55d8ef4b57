-- ===== src/Broker/Release.antt =====
-- What the consumer promises of the messages that it does not finish.
use wagering_wallet_service.Base.{
  any, All, pos, eqb_ℤ, String, ◌≡◌, refl, Bool, true, false, ◌&&◌, List, [], ◌∷◌, arith, str_eq,
  eq_refl,
}
use wagering_wallet_service.Broker.Consumer.{
  Delivery, Call, change_visibility, Consumer, release, release_all, stop,
}

-- A call that makes the message of the delivery visible at once.
abbrev pub is_release : Delivery → Call → Bool
is_release d (change_visibility queue handle seconds) =
    str_eq queue d.queue && str_eq handle d.message.receipt_handle && eqb_ℤ seconds (pos 0)
is_release d _ = false

release_all-keeps :
    (p : Call → Bool) (ds : List (String × Delivery)) (s : Consumer)
    → any p s.calls ≡ true
    → any p (release_all ds s).calls ≡ true
release_all-keeps p [] s h = h
release_all-keeps p ((key, d) ∷ ds) s h = release_all-keeps p ds (release d s) (ground (arith, h))

release_all-All :
    (ds : List (String × Delivery)) (s : Consumer)
    → All (λ e. any (is_release e.1) (release_all ds s).calls ≡ true) ds
release_all-All [] s = tt
release_all-All ((key, d) ∷ ds) s = (
  release_all-keeps (is_release d) ds (release d s)
      (ground (arith, eq_refl d.queue, eq_refl d.message.receipt_handle)),
  release_all-All ds (release d s),
)

release_all-releasing :
    (ds : List (String × Delivery)) (s : Consumer) → (release_all ds s).releasing ≡ s.releasing
release_all-releasing [] s = refl
release_all-releasing ((key, d) ∷ ds) s = release_all-releasing ds (release d s)

-- A stop that does not drain in time makes every message in flight visible again, and sets the mark
-- on which a dispatch turns away.
pub stop-All :
    (s : Consumer)
    → ((stop false s).releasing ≡ true)
      × All (λ e. any (is_release e.1) (stop false s).calls ≡ true) s.in_flight
unfolding stop
stop-All s = (
  release_all-releasing s.in_flight (record s { releasing = true }),
  release_all-All s.in_flight (record s { releasing = true }),
)
