-- ===== src/Flight/Target/Laws.antt =====
-- What the functions of internal/remoteflight/target.go make of blank answers, and of several answers.
use terraform_provider_enos.Prelude.{
  ◌≡◌, refl, ap, ◌∙◌, ℕ, suc, Option, none, some, [], Bytes, codes,
}
use terraform_provider_enos.Go.{Err, Ran, returned, ◌>>=◌}
use terraform_provider_enos.Transport.{Run, new_command}
use terraform_provider_enos.Retry.{Env, Func, active}
use terraform_provider_enos.Retry.First.{retry_loop-first}
use terraform_provider_enos.Flight.Target.{asserted, unless_nil, as_it_is}
use terraform_provider_enos.Flight.Target.Request.{TargetRequest, asked, ended, set_func}
use terraform_provider_enos.Flight.Target.Distro.{ask_release, distro_question, target_distro}
use terraform_provider_enos.Flight.Target.HomeDir.{find_home, target_home_dir}

module _ {W : Type 0} where
  -- A first call with no error ends the loop.
  asked-first :
      (fuel : ℕ) (env : Env W) (req : TargetRequest W) (f : Func W Bytes)
      (finish : Option Bytes → Option Err → Ran (Bytes × Option Err)) (w : W) {v : Bytes} {w' : W}
      → env.poll w ≡ active
      → f w ≡ returned (some v, none, w')
      → asked (suc fuel) env req f finish w
        ≡ some (finish (some v) none >>= λ (t, e). returned (t, e, w'))
  unfolding asked
  asked-first fuel env req f finish w live said =
      let (s, loop, res, err, world) =
        retry_loop-first fuel env (set_func req f) f w refl live said in
      ap (ended finish) loop ∙ rw (res, err, world) refl

  -- A command ends with no error and prints a text.
  abbrev pub Prints : Run W → Bytes → W → Bytes → W → Type 0
  Prints tr cmd w s w' =
      ((tr (new_command cmd) w).0.err ≡ none)
      × ((tr (new_command cmd) w).0.stdout ≡ s)
      × ((tr (new_command cmd) w).1 ≡ w')

  -- Where `echo $HOME` and `echo ~` print nothing and whoami prints a name, all with no error, the
  -- home directory is told to be empty with no error, and /etc/passwd is not asked.
  pub target_home_dir_ignores_whoami :
      (fuel : ℕ) (env : Env W) (tr : Run W) (req : TargetRequest W) (me : Bytes) {w w1 w2 w3 : W}
      → env.poll w ≡ active
      → Prints tr (codes "echo $HOME") w [] w1
      → Prints tr (codes "echo ~") w1 [] w2
      → Prints tr (codes "whoami") w2 me w3
      → target_home_dir (suc fuel) env tr req w ≡ some (returned ([], none, w3))
  unfolding target_home_dir find_home
  target_home_dir_ignores_whoami fuel env tr req me live (a, b, c) (d, e, f) (g, h, i) =
      asked-first fuel env req (find_home tr) (unless_nil as_it_is) _ live
        (rw (a, b, c, d, e, f, g, i) refl)

  -- Where /etc/os-release and lsb_release print nothing and have no error, the distribution is told
  -- to be empty, with no error.
  pub target_distro_blank :
      (fuel : ℕ) (env : Env W) (tr : Run W) (req : TargetRequest W) {w w1 w2 : W}
      → env.poll w ≡ active
      → Prints tr (codes "cat /etc/os-release") w [] w1
      → Prints tr (codes "lsb_release -si") w1 [] w2
      → target_distro (suc fuel) env tr req w ≡ some (returned ([], none, w2))
  unfolding target_distro ask_release
  target_distro_blank fuel env tr req live (a, b, c) (d, e, f) =
      asked-first fuel env req (ask_release distro_question tr) asserted _ live
        (rw (a, b, c, d, e, f) refl)
