-- ===== src/Errors/Laws.antt =====
-- errors.Is on the sentinels: each matches itself, and the configuration sentinels match
-- worklease.ErrConfigInvalid.
use worklease.Base.{◌≡◌, refl, true, arith}
use worklease.Errors.{
  Sentinel, sentinel, is, number, listed, chain, config_invalid, pool_config_invalid, nil_backend,
}

pub is_self : (s : Sentinel) → is (sentinel s) s ≡ true
unfolding is listed chain number
is_self nil_backend = refl
is_self _ = refl

-- Whatever matches the pool's parent sentinel matches the library's.
listed-pool :
    (s : Sentinel)
    → is (sentinel s) pool_config_invalid ≡ true
    → is (sentinel s) config_invalid ≡ true
unfolding is listed chain number
listed-pool nil_backend h = refl
listed-pool _ h = ground arith
