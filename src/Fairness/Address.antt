-- ===== src/Fairness/Address.antt =====
-- Client addresses and their subnets, the functions on net.IP in fairness/classify.go. Of the standard
-- library, net.ParseIP, net.SplitHostPort and the text of an IPv6 address are parameters.
pub mod Buckets
use Prim.Native.String.{String, ◌++◌, ◌∷◌}
use caddy_fair_admission.Prelude.{
  ℕ, ◌+◌, ◌-◌, ◌*◌, ◌/◌, ◌%◌, ◌^◌, Bool, ◌||◌, Option, none, some, if◌then◌else◌,
}
use caddy_fair_admission.Prelude.Int.{ℤ, pos, pos_part, ltb_ℤ}
use caddy_fair_admission.GoMap.{same}
use caddy_fair_admission.GoText.{cut, format_uint}

-- A net.IP that is not nil: an IPv4 address, mapped into IPv6 or not, or any other IPv6 address, as the
-- number that its bits write.
pub data Ip : Type 0 where
  v4 : ℕ → Ip
  v6 : ℕ → Ip

pub record NetText : Type 0 where
  pub parse_ip : String → Option Ip
  -- The host part, `none` for an error.
  pub split_host_port : String → Option String
  pub format_v6 : ℕ → String

-- Dotted decimal.
unfoldable pub format_v4 : ℕ → String
format_v4 a =
    format_uint (a / 2 ^ 24)
    ++ ("."
        ∷ (format_uint (a / 2 ^ 16 % 256)
            ++ ("." ∷ (format_uint (a / 2 ^ 8 % 256) ++ ("." ∷ format_uint (a % 256))))))

-- `Prefix.Masked`: the bits after the prefix are zero, of an address of `width` bits.
abbrev pub masked : ℕ → ℕ → ℕ → ℕ
masked width bits a = a / 2 ^ (width - bits) * 2 ^ (width - bits)

unfoldable pub bucket_ipv4 : Option Ip → String
bucket_ipv4 none = ""
bucket_ipv4 (some (v4 a)) = format_v4 (masked 32 24 a) ++ "/24"
bucket_ipv4 (some (v6 a)) = ""

module _ (net : NetText) where
  unfoldable pub bucket_ipv6 : Option Ip → ℤ → String
  bucket_ipv6 none prefix_len = ""
  bucket_ipv6 (some (v4 a)) prefix_len = ""
  bucket_ipv6 (some (v6 a)) prefix_len =
      if ltb_ℤ prefix_len (pos 0) || ltb_ℤ (pos 128) prefix_len
      then ""
      else net.format_v6 (masked 128 (pos_part prefix_len) a)
        ++ ("/" ∷ format_uint (pos_part prefix_len))

  unfoldable pub format_ip : Ip → String
  format_ip (v4 a) = format_v4 a
  format_ip (v6 a) = net.format_v6 a

  abbrev before_zone : String → Option (String × String) → String
  before_zone host none = host
  before_zone host (some (address, zone)) = address

  abbrev host_of : String → Option String → String
  host_of remote_addr none = remote_addr
  host_of remote_addr (some host) = host

  -- The address of the connection, without its port and its zone.
  unfoldable pub remote_ip : String → Option Ip
  remote_ip remote_addr =
      let host = host_of remote_addr (net.split_host_port remote_addr) in
      net.parse_ip (before_zone host (cut "%" host))

  -- `client_ip` is the text of Caddy's variable, `none` if it is not set to a text.
  unfoldable pub resolve_client_ip : Option String → String → Option Ip
  unfolding remote_ip
  resolve_client_ip none remote_addr = remote_ip remote_addr
  resolve_client_ip (some text) remote_addr =
      if same text ""
      then remote_ip remote_addr
      else elim (net.parse_ip text) [ some ip ↦ some ip | none ↦ remote_ip remote_addr ]
