-- ===== src/Repository/Signals/Tests.antt =====
-- A signal that is created twice, invalidated, and left to expire.
use jd_holdings.Prelude.{ltb, ◌≡◌, refl, true, false, none, some, [], ◌∷◌, All}
use jd_holdings.Model.Enums.{Symbol}
use jd_holdings.Repository.Signals.{
  SignalTable, create_signal, active_signals, invalidate_active_signals, expire_stale_signals,
  find_signal, request_key, new_signal,
}
use jd_holdings.Repository.Signals.Active.{expire_stale_signals-valid}
use jd_holdings.Repository.Signals.Samples.{versions, request}

abbrev empty_table : SignalTable
empty_table = record { rows = []; last_id = 0 }

abbrev table : SignalTable
table = record { rows = new_signal versions 1 request ∷ []; last_id = 1 }

creates : create_signal versions request empty_table ≡ ((1, true), table)
unfolding create_signal find_signal
creates = refl

invalidates : (invalidate_active_signals Symbol.tqqq none table).0 ≡ 1
unfolding invalidate_active_signals
invalidates = refl

keeps : (invalidate_active_signals Symbol.tqqq (some (request_key versions request)) table).0 ≡ 0
unfolding invalidate_active_signals
keeps = refl

expire_stale_signals-valid_example :
    All
      (λ row. ltb row.valid_until 101 ≡ false)
      (active_signals none (expire_stale_signals 101 table).1.rows)
expire_stale_signals-valid_example = expire_stale_signals-valid none 101 table
