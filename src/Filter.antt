-- ===== src/Filter.antt =====
-- What the collectors let through: client/src/collector/collector_filter.cpp. An `int` that is only
-- compared is a number.
pub mod Coalescer
pub mod Differ
pub mod Allowed
use audit_forwarder.Prelude.{
  ℕ, Bool, true, false, ◌&&◌, ◌||◌, not, List, [], ◌∷◌, any, last_or, ◌==◌, is_empty, if◌then◌else◌,
  Text, codes, text_eq,
}
use audit_forwarder.Text.{starts_with}
use audit_forwarder.Glob.{filter_glob_match}

pub record FileFilterConfig : Type 0 where
  pub include : List Text
  pub exclude : List Text

pub record ProcessFilterConfig : Type 0 where
  pub exclude_images : List Text

pub record NetworkFilterConfig : Type 0 where
  pub include_loopback : Bool
  pub only_established : Bool
  pub exclude_remote_ports : List ℕ

pub record EtwFilterConfig : Type 0 where
  pub logon_types : List ℕ
  pub skip_machine_accounts : Bool
  pub skip_system : Bool

-- One of the patterns matches.
unfoldable pub matches : List Text → Text → Bool
unfolding any
matches patterns text = any (λ p. filter_glob_match p text) patterns

unfoldable pub file_event_allowed : FileFilterConfig → Text → Bool
unfolding matches
file_event_allowed cfg path =
    if matches cfg.exclude path
    then false
    else if is_empty cfg.include
    then true
    else matches cfg.include path

-- What stands behind the last `\` or `/`; the whole path where there is none.
unfoldable pub after_slash : Text → Text → Text
after_slash best [] = best
after_slash best (c ∷ s) =
    let cut = after_slash s s in
    let keep = after_slash best s in if (c == b'\\') || (c == b'/') then cut else keep

unfoldable pub basename_of : Text → Text
unfolding after_slash
basename_of path = after_slash path path

unfoldable pub process_image_allowed : ProcessFilterConfig → Text → Bool
unfolding basename_of matches
process_image_allowed cfg image_path =
    if is_empty image_path then true else not (matches cfg.exclude_images (basename_of image_path))

unfoldable pub is_loopback_ip : Text → Bool
unfolding starts_with
is_loopback_ip ip =
    if text_eq ip (codes "::1")
      || (text_eq ip (codes "0.0.0.0") || (text_eq ip (codes "::") || is_empty ip))
    then true
    else if starts_with (codes "127.") ip
    then true
    else starts_with (codes "::ffff:127.") ip

unfoldable pub network_event_allowed : NetworkFilterConfig → Text → Text → ℕ → Bool → Bool
unfolding is_loopback_ip any
network_event_allowed cfg local_ip remote_ip remote_port established =
    if cfg.only_established && not established
    then false
    else if not cfg.include_loopback && (is_loopback_ip local_ip || is_loopback_ip remote_ip)
    then false
    else if remote_port == 0
    then false
    else not (any (λ p. p == remote_port) cfg.exclude_remote_ports)

-- `!user.empty() && user.back() == '$'`.
unfoldable pub machine_account : Text → Bool
machine_account [] = false
machine_account (c ∷ user) = last_or c user == b'$'

unfoldable pub etw_event_allowed : EtwFilterConfig → ℕ → ℕ → Text → Text → Bool
unfolding machine_account any
etw_event_allowed cfg event_id logon_type user sid =
    if not (event_id == 4624)
    then true
    else if cfg.skip_system && (text_eq sid (codes "S-1-5-18") || text_eq user (codes "SYSTEM"))
    then false
    else if cfg.skip_machine_accounts && machine_account user
    then false
    else if is_empty cfg.logon_types
    then true
    else any (λ t. t == logon_type) cfg.logon_types
