-- ===== src/Repository/Recovery/Tests.antt =====
-- A start after a crash: a buy is taken in part, a sell is not taken yet.
use jd_holdings.Prelude.{◌≡◌, refl, [], ◌∷◌}
use jd_holdings.Repository.Tables.{progress_of}
use jd_holdings.Repository.CoreFill.Samples.{db}
use jd_holdings.Repository.Recovery.{unapplied_core_fill_order_ids}

unapplied : unapplied_core_fill_order_ids db.core_fill_progress db.orders ≡ 1 ∷ 2 ∷ []
unfolding unapplied_core_fill_order_ids progress_of
unapplied = refl
