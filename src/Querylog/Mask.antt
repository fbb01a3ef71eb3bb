-- ===== src/Querylog/Mask.antt =====
-- internal/querylog/logger.go: MaskClientIP. net.ParseIP and IP.String are arguments; an address is
-- the list of its bytes, 16 of them from ParseIP.
pub mod Masked
use s_hole.Prelude.{
  ℕ, ◌+◌, ◌&&◌, [], ◌∷◌, ◌++◌, Option, none, some, Bytes, codes, text_eq, length, take, drop, ◌==◌,
  if◌then◌else◌,
}

pub record Net : Type 0 where
  pub parse_ip : Bytes → Option Bytes
  pub ip_string : Bytes → Bytes

-- The first twelve bytes of an IPv4 address in its 16-byte form.
abbrev pub v4_prefix : Bytes
v4_prefix = 0 ∷ 0 ∷ 0 ∷ 0 ∷ 0 ∷ 0 ∷ 0 ∷ 0 ∷ 0 ∷ 0 ∷ 0xFF ∷ 0xFF ∷ []

-- IP.To4
unfoldable pub to4 : Bytes → Option Bytes
to4 ip =
    if length ip == 4
    then some ip
    else if length ip == 16 && text_eq (take 12 ip) v4_prefix
    then some (drop 12 ip)
    else none

unfoldable pub clear : Bytes → Bytes
clear [] = []
clear (b ∷ ip) = 0 ∷ clear ip

-- IP.Mask with a mask of n whole bytes.
unfoldable pub mask : ℕ → Bytes → Bytes
unfolding clear
mask n ip = take n ip ++ clear (drop n ip)

module _ (net : Net) where
  unfoldable pub mask_parsed : Bytes → Option Bytes → Bytes
  unfolding mask
  mask_parsed ip (some v4) = net.ip_string (mask 3 v4)
  mask_parsed ip none = net.ip_string (mask 8 ip)

  unfoldable pub mask_subnet : Option Bytes → Bytes
  unfolding to4 mask_parsed
  mask_subnet none = []
  mask_subnet (some ip) = mask_parsed ip (to4 ip)

  unfoldable pub mask_client_ip : Bytes → Bytes → Bytes
  unfolding mask_subnet
  mask_client_ip ip mode =
      if text_eq mode (codes "full")
      then ip
      else if text_eq mode (codes "subnet")
      then mask_subnet (net.parse_ip ip)
      else []
