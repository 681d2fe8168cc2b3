-- ===== src/Checkout/Cancelled.antt =====
-- A payment that arrives after the checkout is cancelled.
use Prim.Native.String.{String}
