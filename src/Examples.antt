-- ===== src/Examples.antt =====
-- Concrete arguments for the witnesses: a parser of two texts, a codec of URLs of one shape, and a store in memory.
use rain_scanner.Base.{
  refl, true, false, List, [], ◌∷◌, ◌++◌, none, some, if◌then◌else◌, pos, Text, codes, text_eq,
  text_eq_iff, text_eq_refl, Option, arith, has_prefix, drop, split_on, ok,
}
use rain_scanner.IpRange.Addr.{v4}
use rain_scanner.IpRange.Family.{Strategy, both}
use rain_scanner.IpRange.Netip.{Netip}
use rain_scanner.Link.Codec.{Codec}
use rain_scanner.Providers.Fetch.{Feed}
use rain_scanner.Storage.{Store, IsStore, CustomTarget, RangeFile}

-- 10.0.0.0/30 and 8.8.8.8, and nothing else.
abbrev pub two_texts : Netip
two_texts = record {
  parse_prefix = λ t.
      if text_eq t (codes "10.0.0.0/30")
      then some (record { addr = v4 167772160; bits = 30 })
      else none;
  parse_addr = λ t. if text_eq t (codes "8.8.8.8") then some (v4 134744072) else none;
}

abbrev pub unlimited : Strategy
unlimited = record {
  sample_per_24 = pos 0;
  max_hosts_per_cidr = pos 0;
  max_total = pos 0;
  family = both;
  max_hosts_per_v6_cidr = pos 0;
}

-- A host and a port.
pub record HostPort : Type 0 where
  pub name : Text
  pub number : Text

abbrev pub host_port : List Text → HostPort
host_port [] = record { name = []; number = [] }
host_port (h ∷ []) = record { name = h; number = [] }
host_port (h ∷ p ∷ rest) = record { name = h; number = p }

-- Links of the shape vless://u@host:port, with an SNI and a host as their query.
abbrev pub simple_links : Codec
simple_links = record {
  Url = HostPort;
  parse_url = λ t.
      if has_prefix t (codes "vless://u@")
      then some (host_port (split_on b':' (drop 10 t)))
      else none;
  has_user = λ u. true;
  username = λ u. codes "u";
  hostname = λ (u : HostPort). u.name;
  port = λ (u : HostPort). u.number;
  query = λ u key.
      if text_eq key (codes "sni")
      then codes "sni.example"
      else if text_eq key (codes "host")
      then codes "host.example"
      else [];
  fragment = λ u. [];
  with_host = λ u h. host_port (split_on b':' h);
  print_url = λ (u : HostPort). codes "vless://u@" ++ u.name ++ codes ":" ++ u.number;
  unescape = λ t. some t;
  decode = λ e t. none;
  encode = λ t. t;
  vmess_of = λ t. none;
  object_of = λ t. none;
  print_object = λ m. [];
}

-- The parts of a store that keeps everything it is given.
pub record Memory : Type 0 where
  pub customs : List CustomTarget
  pub hidden : List Text
  pub files : List (Text × RangeFile)

abbrev pub find_file : Text → List (Text × RangeFile) → Option RangeFile
find_file cdn [] = none
find_file cdn ((k, rf) ∷ files) =
    let rest = find_file cdn files in if text_eq k cdn then some rf else rest

abbrev pub memory : Store
memory = record {
  State = Memory;
  ranges = λ cdn (d : Memory). find_file cdn d.files;
  save_ranges =
      λ (rf : RangeFile) (d : Memory). (record d { files = (rf.cdn, rf) ∷ d.files }, true);
  load_customs = λ (d : Memory). ok d.customs;
  save_customs = λ cs (d : Memory). (record d { customs = cs }, true);
  load_hidden = λ (d : Memory). ok d.hidden;
  save_hidden = λ hs (d : Memory). (record d { hidden = hs }, true);
}

pub memory-IsStore : IsStore memory
memory-IsStore = record {
  customs_saved = λ cs d h. refl;
  hidden_saved = λ hs d h. refl;
  customs_kept = λ hs d _. refl;
  hidden_kept = λ cs d _. refl;
  ranges_keep_customs = λ rf d h. refl;
  ranges_keep_hidden = λ rf d h. refl;
  ranges_saved = λ rf d h. ground (arith, text_eq_refl rf.cdn);
  ranges_other = λ rf cdn d apart. ground (arith, text_eq_iff rf.cdn cdn);
}

abbrev pub empty_memory : Memory
empty_memory = record { customs = []; hidden = []; files = [] }

-- A network that answers no request.
abbrev pub offline_feed : Feed
offline_feed = record {
  http_get = λ url. none;
  range_file_of = λ b. none;
  array_of = λ b. none;
  aws_of = λ b. none;
  find_all = λ b. [];
  print = λ p. [];
  special = λ a. false;
}
