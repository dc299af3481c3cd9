-- ===== src/Xray/Config.antt =====
-- internal/xray/config.go: the configuration of one xray-core process. `map[string]any` is a JSON object
-- and `json.Marshal` the parameter `marshal`.
pub mod Laws
pub mod Servers
pub mod Wires
use rain_scanner.Base.{
  ℕ, suc, ◌+◌, ◌≡◌, ℤ, pos, Bool, true, false, not, ◌||◌, List, [], ◌∷◌, ◌++◌, Option, none, some,
  if◌then◌else◌, Text, codes, text_eq, is_empty, Result, ok, err, ◌>>=◌, ◌>>◌, or_error,
}
use rain_scanner.Base.Json.{
  Json, null, bool, num, str, raw, arr, obj, Items, nil, cons, Fields, end, field, put, only,
}
use rain_scanner.Link.Outbound.{Outbound}
use rain_scanner.Xray.Itoa.{xray_itoa}
use rain_scanner.Xray.Stream.{
  ConfigError, unsupported_protocol, marshal_failed, itoa_panic, first_non_empty, put_unless_empty,
  texts, stream_settings,
}

abbrev pub server_list : Text → Text → ℤ → Json → Fields
server_list key ip port users =
    field key
      (arr (
        only (
          obj (
            field (codes "address") (str ip)
              (field (codes "port") (num port) (field (codes "users") users end))))))
      end

-- The protocol's "settings" object.
unfoldable pub protocol_settings : Outbound → Text → ℤ → Result ConfigError Fields
protocol_settings o ip port =
    if text_eq o.protocol (codes "vless")
    then ok (
        server_list (codes "vnext") ip port (
          arr (
            only (
              obj (
                put_unless_empty (codes "flow") o.flow (
                  field (codes "id") (str o.id)
                    (field (codes "encryption") (str (codes "none")) end)))))))
    else if text_eq o.protocol (codes "vmess")
    then ok (
        server_list (codes "vnext") ip port (
          arr (
            only (
              obj (
                field (codes "id") (str o.id) (
                  field (codes "alterId") (num o.alter_id) (
                    field (codes "security")
                      (str (if is_empty o.cipher then codes "auto" else o.cipher)) end)))))))
    else if text_eq o.protocol (codes "trojan")
    then ok (
        field (codes "servers")
          (arr (
            only (
              obj (
                put_unless_empty (codes "flow") o.flow (
                  field (codes "address") (str ip) (
                    field (codes "port") (num port)
                      (field (codes "password") (str o.password) end)))))))
          end)
    else err (unsupported_protocol o.protocol)

unfoldable pub build_outbound : Outbound → Text → ℤ → Text → Result ConfigError Fields
build_outbound o ip port tag = do
  stream ← stream_settings o
  settings ← protocol_settings o ip port
  ok (
      put_unless_empty (codes "tag") tag (
        field (codes "protocol") (str o.protocol) (
          field (codes "settings") (obj settings)
            (field (codes "streamSettings") (obj stream) end))))

-- A local HTTP proxy inbound; `rest` are the fields after "settings".
abbrev pub inbound : ℕ → Fields → Fields
inbound port rest = field (codes "listen") (str (codes "127.0.0.1")) (
    field (codes "port") (num (pos port))
      (field (codes "protocol") (str (codes "http")) (field (codes "settings") (obj end) rest)))

abbrev pub quiet : Json
quiet = obj (field (codes "loglevel") (str (codes "none")) end)

pub record BatchTarget : Type 0 where
  pub ip : Text
  pub port : ℤ
  pub inbound_port : ℕ

-- The three lists of GenerateBatchConfig.
pub record Wiring : Type 0 where
  pub inbounds : Items
  pub outbounds : Items
  pub rules : Items

abbrev pub no_wiring : Wiring
no_wiring = record { inbounds = nil; outbounds = nil; rules = nil }

abbrev pub rule : Text → Text → Json
rule in_tag out_tag = obj (
    field (codes "type") (str (codes "field")) (
      field (codes "inboundTag") (arr (only (str in_tag)))
        (field (codes "outboundTag") (str out_tag) end)))

abbrev pub add_wire : Json → Json → Json → Wiring → Wiring
add_wire i o r w = record {
  inbounds = cons i w.inbounds;
  outbounds = cons o w.outbounds;
  rules = cons r w.rules;
}

-- The loop over the targets, from index `i` on.
unfoldable pub wire_targets : Outbound → ℕ → List BatchTarget → Result ConfigError Wiring
wire_targets o i [] = ok no_wiring
wire_targets o i (t ∷ targets) = do
  n ← or_error (xray_itoa (pos i)) itoa_panic
  let in_tag = codes "in-" ++ n
  let out_tag = codes "out-" ++ n
  ob ← build_outbound o t.ip t.port out_tag
  w ← wire_targets o (i + 1) targets
  ok (
      add_wire (obj (inbound t.inbound_port (field (codes "tag") (str in_tag) end))) (obj ob)
        (rule in_tag out_tag) w)

module _ (marshal : Json → Option Text) where
  unfoldable pub generate_config : Outbound → Text → ℤ → ℕ → Result ConfigError Text
  generate_config o ip port inbound_port = do
    ob ← build_outbound o ip port []
    or_error
        (marshal (
          obj (
            field (codes "log") quiet (
              field (codes "inbounds") (arr (only (obj (inbound inbound_port end))))
                (field (codes "outbounds") (arr (only (obj ob))) end)))))
        marshal_failed

  unfoldable pub generate_batch_config : Outbound → List BatchTarget → Result ConfigError Text
  generate_batch_config o targets = do
    w ← wire_targets o 0 targets
    or_error
        (marshal (
          obj (
            field (codes "log") quiet (
              field (codes "inbounds") (arr w.inbounds) (
                field (codes "outbounds") (arr w.outbounds)
                  (field (codes "routing") (obj (field (codes "rules") (arr w.rules) end)) end))))))
        marshal_failed
