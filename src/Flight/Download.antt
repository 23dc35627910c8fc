-- ===== src/Flight/Download.antt =====
-- internal/remoteflight/download.go.
use terraform_provider_enos.Prelude.{
  ℕ, Bool, false, Option, none, some, List, [], ◌∷◌, ◌++◌, Bytes, codes,
}
use terraform_provider_enos.Go.{bool_text, apply_opts, Err, Ran, returned}
use terraform_provider_enos.Transport.{Run, Output, new_command}
use terraform_provider_enos.Retry.{Env, Func, RetrierOpt, Poll, active, done}
use terraform_provider_enos.Flight.Attempts.{retried}
use terraform_provider_enos.Flight.File.{three_times}
use terraform_provider_enos.Flight.Unzip.{default_flight_control_path, sudo_if, or_wrapped}

pub record DownloadRequest (W : Type 0) : Type 0 where
  pub flight_control_path : Bytes
  pub url : Bytes
  pub http_method : Bytes
  pub destination : Bytes
  pub mode : Bytes
  pub sha256 : Bytes
  pub timeout : Bytes
  pub auth_user : Bytes
  pub auth_password : Bytes
  pub auth_token : Bytes
  pub sudo : Bool
  pub replace : Bool
  pub retry_opts : List (RetrierOpt W Bytes)

abbrev pub DownloadOpt : Type 0 → Type 0
DownloadOpt W = DownloadRequest W → DownloadRequest W

module _ {W : Type 0} where
  abbrev pub new_download_request : List (DownloadOpt W) → DownloadRequest W
  new_download_request opts = apply_opts opts (record {
    flight_control_path = default_flight_control_path;
    url = [];
    http_method = codes "GET";
    destination = [];
    mode = codes "0755";
    sha256 = [];
    timeout = codes "5m";
    auth_user = [];
    auth_password = [];
    auth_token = [];
    sudo = false;
    replace = false;
    retry_opts = three_times W;
  })

  abbrev pub with_download_flight_control_path : Bytes → DownloadOpt W
  with_download_flight_control_path path dr = record dr { flight_control_path = path }

  abbrev pub with_url : Bytes → DownloadOpt W
  with_url url dr = record dr { url = url }

  abbrev pub with_http_method : Bytes → DownloadOpt W
  with_http_method meth dr = record dr { http_method = meth }

  abbrev pub with_destination : Bytes → DownloadOpt W
  with_destination dest dr = record dr { destination = dest }

  abbrev pub with_mode : Bytes → DownloadOpt W
  with_mode mode dr = record dr { mode = mode }

  abbrev pub with_auth_user : Bytes → DownloadOpt W
  with_auth_user user dr = record dr { auth_user = user }

  abbrev pub with_auth_password : Bytes → DownloadOpt W
  with_auth_password password dr = record dr { auth_password = password }

  abbrev pub with_auth_token : Bytes → DownloadOpt W
  with_auth_token token dr = record dr { auth_token = token }

  abbrev pub with_sha256 : Bytes → DownloadOpt W
  with_sha256 sha dr = record dr { sha256 = sha }

  abbrev pub with_download_use_sudo : Bool → DownloadOpt W
  with_download_use_sudo use_sudo dr = record dr { sudo = use_sudo }

  abbrev pub with_download_replace : Bool → DownloadOpt W
  with_download_replace replace dr = record dr { replace = replace }

  abbrev pub with_download_retry_options : List (RetrierOpt W Bytes) → DownloadOpt W
  with_download_retry_options opts dr = record dr { retry_opts = opts }

-- A flag with a quoted value, where the value is set.
abbrev pub quoted_flag : Bytes → Bytes → Bytes
quoted_flag flag [] = []
quoted_flag flag (c ∷ value) = flag ++ (codes " '" ++ ((c ∷ value) ++ codes "'"))

abbrev pub auth_flags : Bytes → Bytes → Bytes
auth_flags [] password = []
auth_flags (c ∷ user) [] = []
auth_flags (c ∷ user) (d ∷ password) =
    quoted_flag (codes " --auth-user") (c ∷ user)
    ++ quoted_flag (codes " --auth-password") (d ∷ password)

module _ {W : Type 0} where
  unfoldable pub download_command : DownloadRequest W → Bytes
  download_command dr =
      sudo_if dr.sudo (
        dr.flight_control_path
        ++ (codes " download --url '"
            ++ (dr.url
                ++ (codes "' --destination '"
                    ++ (dr.destination
                        ++ (codes "' --mode '"
                            ++ (dr.mode
                                ++ (codes "' --timeout '"
                                    ++ (dr.timeout
                                        ++ (codes "' --replace=" ++ bool_text dr.replace))))))))))
      ++ (quoted_flag (codes " --sha256") dr.sha256
          ++ (auth_flags dr.auth_user dr.auth_password
              ++ quoted_flag (codes " --auth-token") dr.auth_token))

  abbrev downloaded : Output × W → Ran (Option Bytes × Option Err × W)
  downloaded (out, w) = returned (none, or_wrapped out out.err, w)

  unfoldable pub run_download : Run W → DownloadRequest W → Func W Bytes
  unfolding download_command
  run_download tr dr w = downloaded (tr (new_command (download_command dr)) w)

  abbrev polled : ℕ → Env W → Run W → DownloadRequest W → W → Poll → Option (Ran (Option Err × W))
  polled fuel env tr dr w (done e) = some (returned (e, w))
  polled fuel env tr dr w active = retried fuel env dr.retry_opts (run_download tr dr) w

  unfoldable pub download :
      ℕ → Env W → Run W → DownloadRequest W → W → Option (Ran (Option Err × W))
  unfolding run_download retried
  download fuel env tr dr w = polled fuel env tr dr w (env.poll w)
