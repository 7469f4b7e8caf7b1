-- ===== src/Security/Address.antt =====
-- trade_post/security/auth.py: `_client_ip`. `valid` says whether `ipaddress.ip_address` accepts a
-- text.
pub mod Proxies
use Prim.Native.Char.{Char, code}
use trade_post.Base.{
  ℕ, String, Bool, true, false, Option, none, some, List, [], ◌∷◌, ◌==◌, map, keep_if, last, strip,
  if◌then◌else◌,
}
use trade_post.Config.{is_true_text}
use trade_post.Persistence.Snapshots.{first_row}

abbrev pub put : Char → List String → List String
put c [] = String.◌∷◌ c String.[] ∷ []
put c (s ∷ ss) = String.◌∷◌ c s ∷ ss

-- `s.split(",")`
unfoldable pub split_commas : String → List String
split_commas String.[] = String.[] ∷ []
split_commas (String.◌∷◌ c s) =
    let rest = split_commas s in if code c == b',' then String.[] ∷ rest else put c rest

-- `[p.strip() for p in forwarded.split(",") if p.strip()]`
unfoldable pub parts_of : String → List String
unfolding split_commas
parts_of forwarded = keep_if is_true_text (map strip (split_commas forwarded))

module _ (valid : String → Bool) where
  abbrev pub peer_host : Option String → String
  peer_host none = "unknown"
  peer_host (some host) = host

  -- The header that names the real address, and then the peer.
  unfoldable pub without_forwarded : Option String → Option String → String
  without_forwarded none host = peer_host host
  without_forwarded (some real) host =
      if is_true_text real
      then (if valid (strip real) then strip real else peer_host host)
      else peer_host host

  abbrev pub accepted : Option String → Option String → Option String → Option String
  accepted none real host = none
  accepted (some candidate) real host =
      some (if valid candidate then candidate else without_forwarded real host)

  -- None is an `IndexError`, where the header of the proxies has no part.
  unfoldable pub client_ip : Bool → Option String → Option String → Option String → Option String
  unfolding parts_of
  client_ip production none real host = some (without_forwarded real host)
  client_ip production (some forwarded) real host =
      if is_true_text forwarded
      then accepted
          (if production then last (parts_of forwarded) else first_row (parts_of forwarded)) real
          host
      else some (without_forwarded real host)
