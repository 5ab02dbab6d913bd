-- ===== src/PositionManager/Sells.antt =====
-- What apply_sell_fill does to the balance of a position and its plan.
use jd_holdings.PositionManager.Book.{Book}
