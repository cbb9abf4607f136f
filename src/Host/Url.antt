-- ===== src/Host/Url.antt =====
-- main.rs: the address of the database. The library `url` is `Urls`; ASCII letters are compared
-- without their case by `eq_ignore_ascii_case`, as the standard library documents it.
use text.Mathlib.Text.{◌==◌ as str_eq}
use Prim.Native.String.{String}
use nexus_core_devops_engine.Base.{
  ℕ, ◌+◌, Bool, true, false, ◌&&◌, ◌||◌, List, [], ◌∷◌, Option, none, some, leb, ◌==◌,
  if◌then◌else◌,
}
use nexus_core_devops_engine.Base.Text.{Text, lit, num, codes, contains_text}

pub record Urls : Type 1 where
  pub Url : Type 0
  pub parse : String → Option Url
  pub host_str : Url → Option String
  pub set_host : Url → String → Option Url
  pub port_or_known_default : Url → Option ℕ
  pub into : Url → String

unfoldable to_ascii_lowercase : ℕ → ℕ
to_ascii_lowercase c = if leb b'A' c && leb c b'Z' then c + 32 else c

unfoldable eq_ignore_ascii_case : List ℕ → List ℕ → Bool
unfolding to_ascii_lowercase
eq_ignore_ascii_case [] [] = true
eq_ignore_ascii_case [] (d ∷ ds) = false
eq_ignore_ascii_case (c ∷ cs) [] = false
eq_ignore_ascii_case (c ∷ cs) (d ∷ ds) =
    to_ascii_lowercase c == to_ascii_lowercase d && eq_ignore_ascii_case cs ds

module _ (u : Urls) where
  unfoldable pub with_ipv4 : String → u.Url → String → String
  unfolding eq_ignore_ascii_case
  with_ipv4 url parsed host =
      if eq_ignore_ascii_case (codes host) (codes "localhost") || str_eq host "::1"
      then elim (u.set_host parsed "127.0.0.1") [ none ↦ url | some changed ↦ u.into changed ]
      else url

  unfoldable pub normalize_surreal_url : String → String
  unfolding with_ipv4
  normalize_surreal_url url = elim (u.parse url) [
    | none ↦ url
    | some parsed ↦ elim (u.host_str parsed) [ none ↦ url | some host ↦ with_ipv4 url parsed host ]
  ]

  unfoldable pub surreal_tcp_target : String → Option Text
  surreal_tcp_target url = elim (u.parse url) [
    | none ↦ none
    | some parsed ↦ elim (u.host_str parsed) [
      | none ↦ none
      | some host ↦ elim (u.port_or_known_default parsed) [
        | none ↦ none
        | some port ↦ some (lit host ∷ lit ":" ∷ num port ∷ [])
      ]
    ]
  ]

-- On the text of an error.
unfoldable pub should_fallback_to_mem : List ℕ → Bool
unfolding contains_text
should_fallback_to_mem msg =
    contains_text msg (codes "Temporary failure in name resolution")
    || contains_text msg (codes "failed to lookup address information")
    || contains_text msg (codes "name resolution")
    || contains_text msg (codes "Timed out in bb8")
