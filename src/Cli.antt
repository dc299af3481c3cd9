-- ===== src/Cli.antt =====
-- cmd/cdnscan/main.go: what the command makes of its flags. Flags are parsed by package flag, and log.Fatal ends the process
-- with status 1.
pub mod Ports
pub mod Bar
pub mod Status
pub mod Updater
pub mod Tests
use rain_scanner.Base.{
  ℕ, ◌≡◌, refl, Bool, true, false, ◌||◌, ◌&&◌, not, List, [], ◌∷◌, ◌++◌, Option, none, some,
  if◌then◌else◌, Text, codes, text_eq, equal_fold, to_lower, trim_space, is_empty, is_some,
  split_on, ltb, ℤ, pos, is_pos, pos_part, Result, ok, err, arith, All, All-imp, ◌==◌, map,
  text_eq_refl, text_ltb,
}
use rain_scanner.Base.Sorting.{sort_by-All}
use rain_scanner.Providers.Manifest.{ManifestEntry, Manifest, names, get_entry, find_entry}
use rain_scanner.App.{ScanRequest}
use rain_scanner.Cli.Ports.{parse_ports}
use rain_scanner.Pipeline.{
  Summary, lite_tcp_concurrency, lite_xray_concurrency, lite_batch_size, default_tcp_concurrency,
}

-- The loop of selectCDNs over the names of the list.
unfoldable pub known_names : Manifest → List Text → List Text
known_names m [] = []
known_names m (p ∷ ps) =
    let name = to_lower (trim_space p) in
    let rest = known_names m ps in
    if is_empty name then rest else if is_some (get_entry m name) then name ∷ rest else rest

unfoldable pub select_cdns : Manifest → Text → List Text
select_cdns m arg =
    if equal_fold arg (codes "all") then names m else known_names m (split_on b',' arg)

-- guiURL; `split` is net.SplitHostPort and `join` net.JoinHostPort.
unfoldable pub gui_url : (Text → Option (Text × Text)) → (Text → Text → Text) → Text → Text
gui_url split join addr = elim (split addr) [
  | none ↦ codes "http://" ++ addr
  | some (host, port) ↦
      let local = is_empty host || (text_eq host (codes "0.0.0.0") || text_eq host (codes "::")) in
      codes "http://" ++ join (if local then codes "127.0.0.1" else host) port
]

-- Whether the web server warns that others can reach it; `loopback` is net.ParseIP followed by IsLoopback.
unfoldable pub warns : (Text → Option (Text × Text)) → (Text → Option Bool) → Text → Bool
warns split loopback addr = elim (split addr) [
  | none ↦ false
  | some (h, port) ↦
      not (text_eq h (codes "localhost"))
      && (not (is_empty h) && elim (loopback h) [ none ↦ true | some b ↦ not b ])
]

-- The flags that choose what the command does.
pub record Flags : Type 0 where
  pub show_version : Bool
  pub serve : Bool
  pub update_dir : Text
  pub list_cdn : Bool
  pub cdn_list : Text
  -- flag.NFlag and flag.NArg
  pub flags_given : ℕ
  pub args_given : ℕ

pub data Command : Type 0 where
  print_version serve_gui list_cdns no_cdn no_valid_cdn : Command
  update : Text → Command
  scan_cdns : List Text → Command

unfoldable pub command_of : Manifest → Flags → Command
command_of m f =
    if f.show_version
    then print_version
    else if f.serve || (f.flags_given == 0 && f.args_given == 0)
    then serve_gui
    else if not (is_empty f.update_dir)
    then update f.update_dir
    else if f.list_cdn
    then list_cdns
    else if is_empty f.cdn_list
    then no_cdn
    else (let cdns = select_cdns m f.cdn_list in
        if is_empty cdns then no_valid_cdn else scan_cdns cdns)

-- The concurrency of stage 1, of stage 2 and the size of a batch, by the number of CPUs.
unfoldable pub concurrency_of : ℕ → Bool → ℤ → ℤ → ℤ → ℤ × ℤ × ℤ
concurrency_of cpus lite tcp xray batch =
    if lite
    then (pos lite_tcp_concurrency, pos lite_xray_concurrency, pos lite_batch_size)
    else ((if is_pos tcp then tcp else pos (default_tcp_concurrency cpus)), xray, batch)

-- The flags that describe a scan; durations are in milliseconds.
pub record ScanFlags : Type 0 where
  pub ports_list : Text
  pub port : ℤ
  pub link : Text
  pub xray_path : Text
  pub tcp_concurrency : ℤ
  pub tcp_timeout_ms : ℤ
  pub xray_concurrency : ℤ
  pub batch_size : ℤ
  pub lite : Bool
  pub max_total : ℤ
  pub probes : ℤ
  pub confirm : ℤ
  pub max_latency_ms : ℤ
  pub probe_url : Text
  pub probe_timeout_ms : ℤ
  pub sample_per_24 : ℤ
  pub max_hosts_per_cidr : ℤ
  pub family : Text
  pub max_hosts_per_v6_cidr : ℤ
  pub refresh : Bool

-- The request for one CDN.
unfoldable pub request_of : ℕ → ScanFlags → Text → ScanRequest
request_of cpus f cdn =
    let conc = concurrency_of cpus f.lite f.tcp_concurrency f.xray_concurrency f.batch_size in
    record {
      cdn = cdn;
      custom = none;
      ports = parse_ports f.ports_list f.port;
      port = f.port;
      link = f.link;
      xray_path = f.xray_path;
      tcp_concurrency = conc.0;
      tcp_timeout_ms = f.tcp_timeout_ms;
      xray_concurrency = conc.1;
      batch_size = conc.2;
      probes = f.probes;
      confirm = f.confirm;
      max_latency_ms = f.max_latency_ms;
      probe_timeout_ms = f.probe_timeout_ms;
      probe_url = f.probe_url;
      sample_per_24 = f.sample_per_24;
      max_hosts_per_cidr = f.max_hosts_per_cidr;
      max_total = f.max_total;
      family = f.family;
      max_hosts_per_v6_cidr = f.max_hosts_per_v6_cidr;
      lite = f.lite;
      refresh = f.refresh;
    }

-- The loop of main over the CDNs, with the service's Scan; the first error ends the command.
unfoldable pub scan_each {ℓ} :
    {E : Type ℓ} → (Text → Result E (List Summary)) → List Text → Result E (List Summary)
scan_each scan [] = ok []
scan_each scan (cdn ∷ cdns) =
    let rest = scan_each scan cdns in
    elim (scan cdn) [
      | err e ↦ err e
      | ok sums ↦ elim rest [ err e ↦ err e | ok more ↦ ok (sums ++ more) ]
    ]

-- An entry of the manifest has the name.
abbrev pub Known : Manifest → Text → Type 0
Known m name = is_some (get_entry m name) ≡ true

known_names-Known : (m : Manifest) (ps : List Text) → All (Known m) (known_names m ps)
unfolding known_names
known_names-Known m [] = tt
known_names-Known m (p ∷ ps) = ground (arith, known_names-Known m ps)

found :
    (e : ManifestEntry) (es : List ManifestEntry)
    → is_some (find_entry (to_lower e.name) (e ∷ es)) ≡ true
unfolding find_entry
found e es = rw (text_eq_refl (to_lower e.name)) refl

find_entry-later :
    (lower : Text) (e : ManifestEntry) (es : List ManifestEntry)
    → is_some (find_entry lower es) ≡ true
    → is_some (find_entry lower (e ∷ es)) ≡ true
unfolding find_entry
find_entry-later lower e es h = ground arith

All-found :
    (es : List ManifestEntry)
    → All
        (λ (name : Text). is_some (find_entry (to_lower name) es) ≡ true)
        (map (λ (e : ManifestEntry). e.name) es)
All-found [] = tt
All-found (e ∷ es) = (
  found e es,
  All-imp (λ (name : Text). is_some (find_entry (to_lower name) es) ≡ true) _
      (λ name h. find_entry-later (to_lower name) e es h) _ (All-found es),
)

names-Known : (m : Manifest) → All (Known m) (names m)
unfolding names get_entry
names-Known none = tt
names-Known (some es) = sort_by-All text_ltb _ _ (All-found es)

-- Whatever the flag says, "all" in any case of letters included, every CDN that is selected has an entry.
pub select_cdns-Known : (m : Manifest) (arg : Text) → All (Known m) (select_cdns m arg)
unfolding select_cdns
select_cdns-Known m arg = ground (arith, names-Known m, known_names-Known m (split_on b',' arg))
