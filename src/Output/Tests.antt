-- ===== src/Output/Tests.antt =====
-- A file name for a name that is no file name.
use rain_scanner.Base.{◌≡◌, ◌≢◌, refl, [], All, codes}
use rain_scanner.Output.{sanitize_name}

test_sanitize : sanitize_name (codes " ../My CDN!! ") ≡ codes "my-cdn"
unfolding sanitize_name rain_scanner.Base.trim rain_scanner.Output.dashed rain_scanner.Base.to_lower
    rain_scanner.Base.trim_space
test_sanitize = refl
