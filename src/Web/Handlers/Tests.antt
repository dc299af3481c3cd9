-- ===== src/Web/Handlers/Tests.antt =====
-- The theorems about requests, at a server over a store in memory, on a machine that no host answers.
use rain_scanner.Base.{
  ℕ, ◌+◌, ◌≡◌, ◌≢◌, refl, ap, Bool, true, false, List, [], ◌∷◌, ◌++◌, Option, some, none, Text,
  codes, pos, Result, ok, length, keep, arith, to_lower, trim_space, trim,
}
use rain_scanner.Examples.{two_texts, memory, empty_memory, offline_feed}
use rain_scanner.IpRange.Entries.{split}
use rain_scanner.Targets.{Record, Registry, list}
use rain_scanner.App.Service.{Service, ReloadResult, reloadable, refresh_manifest}
use rain_scanner.App.Tests.{greedy}
use rain_scanner.Web.Requests.{Headers, Stat, not_found, host_allowed, guard_mutation}
use rain_scanner.Web.Handlers.{
  Server, World, handle_ranges, handle_targets, handle_target_reload_all, handle_stop, serve,
  summed, reload_every,
}
use rain_scanner.Web.Protocol.{
  Method, get_method, post_method, Request, Reply, stopping, range_list, stored, all_reloaded,
  Reloaded,
}
use rain_scanner.Web.Handlers.Trust.{IsTrusted, serve-IsTrusted}
use rain_scanner.Web.Handlers.Edits.{handle_ranges-post}
use rain_scanner.Web.Lifecycle.{claimed, running, System, here, next, registers}
use rain_scanner.Web.Lifecycle.Single.{Single, Steps-Single, after_stop, handle_stop_reach}

abbrev no_scheme : Text → Option Text
no_scheme t = none

abbrev registry : Registry
registry = record {
  builtin_names = codes "fastly" ∷ [];
  hidden = [];
  recs = record { name = codes "fastly"; cidrs = []; api_url = []; builtin = true } ∷ [];
}

abbrev server : Server memory
server = record {
  service = record { registry = registry; state = empty_memory; manifest = some [] };
  jobs = [];
  scanning = false;
  cancel = none;
  stopped = [];
}

abbrev world : World memory
world = record {
  media_of = λ t. some t;
  stat = λ p. not_found;
  fresh = codes "j";
  now = 0;
  sources = record { github_raw = none; jsdelivr = none; cached = none };
  feeds = λ i. offline_feed;
}

abbrev headers : Headers
headers = record { host = codes "h"; origin = []; content_type = [] }

abbrev mine : Record
mine = record {
  name = codes " Mine ";
  cidrs = codes "10.0.0.0/30" ∷ codes "x" ∷ [];
  api_url = [];
  builtin = true;
}

abbrev kept : Record
kept = record {
  name = codes "Mine";
  cidrs = codes "10.0.0.0/30" ∷ [];
  api_url = [];
  builtin = false;
}

-- A POST with every body there is, to a path.
abbrev post : Text → Request
post path = record {
  method = post_method;
  path = path;
  headers = headers;
  name = [];
  cdn = codes "MINE";
  record_body = some mine;
  reload_body = none;
  prefer_body = none;
  scan_body = some greedy;
}

abbrev no_split : Text → Option Text
no_split t = none

handle_ranges-post_example :
    (handle_ranges memory two_texts no_scheme world
      (post [])
      (handle_targets memory two_texts no_scheme world (post []) server).1).0
    ≡ range_list kept (split two_texts kept.cidrs).0 (split two_texts kept.cidrs).1
unfolding handle_targets guard_mutation rain_scanner.Base.◌>>=◌ rain_scanner.Targets.Upsert.upsert
    trim_space rain_scanner.Targets.Upsert.unhide rain_scanner.Base.text_eq to_lower
    rain_scanner.Targets.Upsert.put_record rain_scanner.Targets.persist_locked
    rain_scanner.Targets.Upsert.place rain_scanner.Targets.index_of rain_scanner.Targets.index_from
    rain_scanner.Base.equal_fold rain_scanner.Targets.save_customs_locked
    rain_scanner.IpRange.Entries.filter rain_scanner.IpRange.Entries.entry_addr
    rain_scanner.IpRange.Family.allows
handle_ranges-post_example =
    handle_ranges-post memory two_texts no_scheme world (post []) (post []) server mine kept refl
      refl refl refl refl

abbrev reload_reply : Reloaded
reload_reply =
    let r : ReloadResult = record {
      name = codes "fastly";
      count = 0;
      error = some rain_scanner.Targets.no_api_url;
    } in
    record {
      reloaded = 0;
      failed = 1;
      restored = rain_scanner.Base.err rain_scanner.App.Service.manifest_unavailable;
      results = r ∷ [];
    }

abbrev scan_request : Request
scan_request = post (codes "/api/scan")

changed : (serve memory two_texts no_scheme world none no_split scan_request server).1 ≢ server
unfolding serve host_allowed rain_scanner.Web.Protocol.route
    rain_scanner.Web.Handlers.handle_scan_request rain_scanner.Web.Requests.handle_scan
    rain_scanner.Web.Requests.check_scan guard_mutation rain_scanner.Base.◌>>=◌
    rain_scanner.Base.text_eq
changed e = let up : true ≡ false = ap (λ (x : Server memory). x.scanning) e in cc

serve-IsTrusted_example :
    (host_allowed no_split none scan_request.headers.host ≡ true)
    × IsTrusted world.media_of scan_request
serve-IsTrusted_example =
    serve-IsTrusted memory two_texts no_scheme world none no_split scan_request server changed

abbrev claimed_system : System memory two_texts no_scheme none no_split
claimed_system =
    (record server { scanning = true }, record { id = codes "j"; phase = claimed } ∷ [])

start-Single : Single memory two_texts no_scheme none no_split (server, [])
start-Single = record { one = refl; handled = tt; idle = λ e. refl }

abbrev registered : System memory two_texts no_scheme none no_split
registered = (
  record server { scanning = true; cancel = some (codes "j") },
  record { id = codes "j"; phase = running } ∷ [],
)

claimed-Single : Single memory two_texts no_scheme none no_split claimed_system
claimed-Single = record { one = refl; handled = (refl, tt); idle = λ e. cc }

Steps-Single_example : Single memory two_texts no_scheme none no_split registered
Steps-Single_example =
    Steps-Single memory two_texts no_scheme none no_split claimed_system registered claimed-Single (
      next claimed_system registered here
        (registers (record server { scanning = true }) [] [] (codes "j")))

handle_stop_reach_example :
    handle_stop memory two_texts no_scheme world (post []) (registered.0) ≡ (
      stopping,
      after_stop memory two_texts no_scheme none no_split running (codes "j") (registered.0),
    )
unfolding guard_mutation rain_scanner.Base.◌>>=◌
handle_stop_reach_example =
    handle_stop_reach memory two_texts no_scheme none no_split world (post []) (registered.0) [] []
      (record { id = codes "j"; phase = running }) tt
      (record { one = refl; handled = (refl, tt); idle = λ e. cc }) refl refl
