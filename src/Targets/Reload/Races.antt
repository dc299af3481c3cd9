-- ===== src/Targets/Reload/Races.antt =====
-- Reload holds the registry's mutex only in its Get and in its Upsert: what other requests do while it fetches stands between
-- the two, here a Delete of the target.
use rain_scanner.IpRange.Netip.{Netip}
