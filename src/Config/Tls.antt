-- ===== src/Config/Tls.antt =====
-- src/config.rs: per-participant certificate templates and safe participant ids.
use tak_bench.Prelude.{
  ℕ, Bool, ◌&&◌, ◌||◌, not, Option, none, some, is_some, is_empty, all, if◌then◌else◌, Result, ok,
  err, ◌==◌,
}
use tak_bench.Prelude.Bytes.{Str, bytes, str_eq}
use tak_bench.Config.Text.{is_ascii_alphanumeric, contains, replace}
use tak_bench.Config.Types.{TlsConfig}

pub data TlsTemplateError : Type 0 where
  tls_template_error : TlsTemplateError

abbrev pub is_id_byte : ℕ → Bool
is_id_byte byte = is_ascii_alphanumeric byte || byte == b'-' || byte == b'_' || byte == b'.'

unfoldable pub is_safe_participant_id : Str → Bool
is_safe_participant_id value =
    not (is_empty value)
    && all is_id_byte value
    && not (str_eq value (bytes "."))
    && not (str_eq value (bytes ".."))

abbrev pub placeholder : Str
placeholder = bytes "{participant_id}"

-- `match (&cert_template, &key_template)`
unfoldable pub resolve_templates :
    TlsConfig → Str → Option Str → Option Str → Result TlsTemplateError TlsConfig
unfolding is_safe_participant_id
resolve_templates tls participant_id none none = ok tls
resolve_templates tls participant_id (some cert_template) (some key_template) =
    if is_some tls.client_cert
      || is_some tls.client_key
      || not (contains placeholder cert_template)
      || not (contains placeholder key_template)
      || not (is_safe_participant_id participant_id)
    then err tls_template_error
    else ok (record tls {
      client_cert = some (replace placeholder participant_id cert_template);
      client_key = some (replace placeholder participant_id key_template);
      client_cert_template = none;
      client_key_template = none;
    })
resolve_templates tls participant_id cert_template key_template = err tls_template_error

unfoldable pub for_participant : TlsConfig → Str → Result TlsTemplateError TlsConfig
unfolding resolve_templates
for_participant tls participant_id =
    resolve_templates tls participant_id tls.client_cert_template tls.client_key_template

unfoldable pub uses_participant_templates : TlsConfig → Bool
uses_participant_templates tls = is_some tls.client_cert_template || is_some tls.client_key_template
