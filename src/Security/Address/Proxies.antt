-- ===== src/Security/Address/Proxies.antt =====
-- The address behind proxies, each of which appends what it sees to the header.
use Prim.Native.Char.{Char, code}
use Prim.Native.String.{◌++◌}
use Prim.Native.String.append.{cons as append-cons, nil as append-nil}
use trade_post.Base.{
  ℕ, ◌≡◌, ◌∙◌, refl, sym, ap, arith, String, Bool, true, false, ◌||◌, Option, none, some, List, [],
  ◌∷◌, ◌==◌, map, keep_if, last, is_some, strip, lstrip, rstrip, subst, str_eq, eq_iff, ◌↔◌, ◌&&◌,
  not, last-append, if◌then◌else◌, Bool-cases, inl, inr,
}
use trade_post.Base as Base
use trade_post.Config.{is_true_text}
use trade_post.Persistence.Snapshots.{first_row}
use trade_post.Security.Address.{put, split_commas, parts_of, accepted, client_ip}

abbrev pub has_comma : String → Bool
has_comma String.[] = false
has_comma (String.◌∷◌ c s) = code c == b',' || has_comma s

split_one : (s : String) → has_comma s ≡ false → split_commas s ≡ s ∷ []
unfolding split_commas
split_one String.[] h = refl
split_one (String.◌∷◌ c s) h = ground (arith, split_one s)

abbrev pub is_nonempty : List String → Bool
is_nonempty [] = false
is_nonempty (s ∷ ss) = true

split_nonempty : (s : String) → is_nonempty (split_commas s) ≡ true
unfolding split_commas
split_nonempty String.[] = refl
split_nonempty (String.◌∷◌ c s) = ground (arith, split_nonempty s)

put-append :
    (c : Char) (ss : List String) (p : String)
    → is_nonempty ss ≡ true
    → put c (Base.◌++◌ ss (p ∷ [])) ≡ Base.◌++◌ (put c ss) (p ∷ [])
put-append c [] p h = absurd (ground arith)
put-append c (s ∷ ss) p h = refl

comma_append : (p : String) → "," ++ p ≡ String.◌∷◌ "," p
comma_append p = append-cons "," String.[] p ∙ ap (String.◌∷◌ ",") (append-nil p)

split-append :
    (f p : String)
    → has_comma p ≡ false
    → split_commas (f ++ ("," ++ p)) ≡ Base.◌++◌ (split_commas f) (p ∷ [])
unfolding split_commas
split-append String.[] p h =
    ap split_commas (append-nil ("," ++ p) ∙ comma_append p)
    ∙ ap (λ ss. String.[] ∷ ss) (split_one p h)
split-append (String.◌∷◌ c f) p h =
    let rest = split-append f p h in
    ap split_commas (append-cons c f ("," ++ p)) ∙ elim (Bool-cases (code c == b',')) [
      | inl comma ↦ rw (comma, split_commas) (ap (λ ss. String.[] ∷ ss) rest)
      | inr other ↦
          rw (other, split_commas)
            (ap (put c) rest ∙ put-append c (split_commas f) p (split_nonempty f))
    ]

kept-append :
    (ss : List String) (p : String)
    → is_true_text (strip p) ≡ true
    → keep_if is_true_text (map strip (Base.◌++◌ ss (p ∷ [])))
      ≡ Base.◌++◌ (keep_if is_true_text (map strip ss)) (strip p ∷ [])
unfolding keep_if
kept-append [] p h = ground arith
kept-append (s ∷ ss) p h = ground (arith, kept-append ss p h)

parts_last :
    (sent seen : String)
    → has_comma seen ≡ false
    → is_true_text (strip seen) ≡ true
    → last (parts_of (sent ++ ("," ++ seen))) ≡ some (strip seen)
unfolding parts_of
parts_last sent seen single given =
    ap (λ ss. last (keep_if is_true_text (map strip ss))) (split-append sent seen single)
    ∙ ap last (kept-append (split_commas sent) seen given)
    ∙ last-append (keep_if is_true_text (map strip (split_commas sent))) (strip seen)

header_given : (t a : String) → last (parts_of t) ≡ some a → is_true_text t ≡ true
unfolding parts_of split_commas keep_if strip lstrip rstrip
header_given t a h = elim (Bool-cases (str_eq t "")) [
  | inr other ↦ rw other refl
  | inl empty ↦
      let same : t ≡ "" = (eq_iff t "").0 empty in
      absurd (cc (subst (λ r. last (parts_of r) ≡ some a) same h))
]

last_there : (s : String) (ss : List String) → is_some (last (s ∷ ss)) ≡ true
last_there s [] = refl
last_there s (t ∷ ss) = last_there t ss

picked_there :
    (production : Bool) (ss : List String)
    → is_some (if production then last ss else first_row ss) ≡ is_nonempty ss
picked_there true [] = refl
picked_there false [] = refl
picked_there true (s ∷ ss) = last_there s ss
picked_there false (s ∷ ss) = refl

accepted_none :
    (valid : String → Bool) (o real host : Option String)
    → is_some (accepted valid o real host) ≡ is_some o
accepted_none valid none real host = refl
accepted_none valid (some c) real host = refl

-- A header that is there and not empty, of which all parts are white space.
abbrev pub is_blank : Option String → Bool
is_blank none = false
is_blank (some t) = is_true_text t && not (is_nonempty (parts_of t))

module _ (valid : String → Bool) where
  -- In production, the address is the one that the last proxy has appended to the header after a comma,
  -- if that is one address, whatever stands before it in the header and in the other headers.
  pub client_ip_appended :
      (sent seen : String) (real host : Option String)
      → has_comma seen ≡ false
      → is_true_text (strip seen) ≡ true
      → valid (strip seen) ≡ true
      → client_ip valid true (some (sent ++ ("," ++ seen))) real host ≡ some (strip seen)
  unfolding client_ip
  client_ip_appended sent seen real host single given known =
      let latest = parts_last sent seen single given in
      ground (arith, latest, header_given (sent ++ ("," ++ seen)) (strip seen) latest)

  -- A header of the proxies that is not empty but has no part, such as a comma alone, raises in every
  -- environment; and nothing else does.
  pub client_ip_raises :
      (production : Bool) (forwarded real host : Option String)
      → (client_ip valid production forwarded real host ≡ none) ↔ (is_blank forwarded ≡ true)
  unfolding client_ip
  client_ip_raises production none real host = ground arith
  client_ip_raises production (some t) real host = ground (
    arith,
    picked_there production (parts_of t),
    accepted_none valid (if production then last (parts_of t) else first_row (parts_of t)) real
        host,
  )
