-- ===== src/Consul/Cli/Laws.antt =====
-- Which version parseConsulVersion of internal/remoteflight/consul/version.go finds.
use terraform_provider_enos.Prelude.{◌≡◌, refl, Option, none, List, [], ◌∷◌, ◌++◌, Bytes}
use terraform_provider_enos.Go.{Err}
use terraform_provider_enos.Flight.Paths.{split}
use terraform_provider_enos.Flight.OsRelease.Laws.{split-one, split-first}
use terraform_provider_enos.Systemd.Decode.RoundTrip.{Lacks}
use terraform_provider_enos.Consul.Cli.{trim_left_v, second_part, parse_consul_version}

trim_left_v-number : (number : Bytes) → Lacks b'v' number → trim_left_v (b'v' ∷ number) ≡ number
unfolding trim_left_v
trim_left_v-number [] h = refl
trim_left_v-number (c ∷ number) h = rw h.0 refl

module _ {V : Type 0} (make : Bytes → V × Option Err) (zero_version : V) where
  second_part-tagged :
      (version number : Bytes) (name : Bytes) (rest : List Bytes) (ver : V)
      → Lacks b'v' number
      → make number ≡ (ver, none)
      → second_part make zero_version version (name ∷ (b'v' ∷ number) ∷ rest) ≡ (ver, none)
  second_part-tagged version number name rest ver tag ok =
      rw (trim_left_v-number number tag, ok) refl

  -- A version that semver.Make takes is found after a name, a space and a `v`, where it has no space
  -- and no `v` and the name no space; it ends with the text or at the next space, whatever follows.
  pub parse_consul_version-tagged :
      (name number rest : Bytes) (ver : V)
      → Lacks b' ' name
      → Lacks b' ' number
      → Lacks b'v' number
      → make number ≡ (ver, none)
      → (parse_consul_version make zero_version (name ++ b' ' ∷ b'v' ∷ number) ≡ (ver, none))
        × (parse_consul_version make zero_version (name ++ b' ' ∷ b'v' ∷ (number ++ b' ' ∷ rest))
            ≡ (ver, none))
  unfolding parse_consul_version
  parse_consul_version-tagged name number rest ver name_fits fits tag ok = (
    rw
        (
          split-first b' ' name (b'v' ∷ number) name_fits,
          split-one b' ' (b'v' ∷ number) (refl, fits),
        )
        (second_part-tagged (name ++ b' ' ∷ b'v' ∷ number) number name [] ver tag ok),
    rw
        (
          split-first b' ' name (b'v' ∷ (number ++ b' ' ∷ rest)) name_fits,
          split-first b' ' (b'v' ∷ number) rest (refl, fits),
        )
        (second_part-tagged (name ++ b' ' ∷ b'v' ∷ (number ++ b' ' ∷ rest)) number name
          (split b' ' rest) ver tag ok),
  )
