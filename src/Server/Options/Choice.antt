-- ===== src/Server/Options/Choice.antt =====
-- Which of the options given counts: the last of its kind.
use logcabin_redis_proxy.Base.{
  ℕ, ◌≤◌, List, [], ◌∷◌, ◌++◌, ◌≡◌, refl, sym, ap, ◌∙◌, append-nil, Option, none, some, All, ltb, ℤ,
  arith, false,
}
use logcabin_redis_proxy.Bytes.{Bytes}
use logcabin_redis_proxy.Num.{atoi}
use logcabin_redis_proxy.Server.Options.{
  Options, Opt, opt_cluster, opt_size, opt_port, opt_address, opt_thread_num, opt_help, opt_unknown,
  options, exits, defaults, usage, parse_options, option_parser,
}

abbrev cluster_of : Opt → Option Bytes
cluster_of (opt_cluster a) = some a
cluster_of _ = none

abbrev address_of : Opt → Option Bytes
address_of (opt_address a) = some a
address_of _ = none

abbrev port_of : Opt → Option ℤ
port_of (opt_port a) = some (atoi a)
port_of _ = none

abbrev size_of : Opt → Option ℤ
size_of (opt_size a) = some (atoi a)
size_of _ = none

abbrev threads_of : Opt → Option ℤ
threads_of (opt_thread_num a) = some (atoi a)
threads_of _ = none

abbrev or_else : {A : Type 0} → Option A → A → A
or_else none d = d
or_else (some a) d = a

-- The last value of its kind, and the default where there is none.
abbrev last_of : {A : Type 0} → (Opt → Option A) → A → List Opt → A
last_of f d [] = d
last_of f d (o ∷ os) = last_of f (or_else (f o) d) os

-- The options that do not end the process.
abbrev pub IsSetting : Opt → Type 0
IsSetting opt_help = ⊥
IsSetting opt_unknown = ⊥
IsSetting _ = Unit

abbrev pub chosen : List Opt → Options → Options
chosen opts o = record {
  cluster = last_of cluster_of o.cluster opts;
  bind_addr = last_of address_of o.bind_addr opts;
  service_port = last_of port_of o.service_port opts;
  set_size = last_of size_of o.set_size opts;
  thread_num = last_of threads_of o.thread_num opts;
}

-- How the parse goes on behind some settings.
after_settings :
    (name : Bytes) (opts behind : List Opt) (o : Options)
    → All IsSetting opts
    → parse_options name (opts ++ behind) o ≡ parse_options name behind (chosen opts o)
unfolding parse_options
after_settings name [] behind o v = refl
after_settings name (opt_cluster a ∷ os) behind o v =
    after_settings name os behind (record o { cluster = a }) v.1
after_settings name (opt_size a ∷ os) behind o v =
    after_settings name os behind (record o { set_size = atoi a }) v.1
after_settings name (opt_port a ∷ os) behind o v =
    after_settings name os behind (record o { service_port = atoi a }) v.1
after_settings name (opt_address a ∷ os) behind o v =
    after_settings name os behind (record o { bind_addr = a }) v.1
after_settings name (opt_thread_num a ∷ os) behind o v =
    after_settings name os behind (record o { thread_num = atoi a }) v.1
after_settings name (opt_help ∷ os) behind o v = absurd v.0
after_settings name (opt_unknown ∷ os) behind o v = absurd v.0

enough : (argc : ℕ) → 2 ≤ argc → ltb argc 2 ≡ false
enough argc h = ground arith

given :
    (name : Bytes) (argc : ℕ) (opts : List Opt)
    → 2 ≤ argc
    → option_parser name argc opts ≡ parse_options name opts defaults
unfolding option_parser
given name argc opts h = rw (enough argc h) refl

-- With at least one argument: where all are settings, each option has the last value given for it, and
-- its default where none is given; -h behind settings prints the usage text and exits with 0, whatever
-- follows; an unknown option prints it too and exits with 1.
pub option_parser-last :
    (name : Bytes) (argc : ℕ) (opts behind : List Opt)
    → 2 ≤ argc
    → All IsSetting opts
    → (option_parser name argc opts ≡ options (chosen opts defaults))
      × (option_parser name argc (opts ++ (opt_help ∷ behind)) ≡ exits 0 (usage name))
      × (option_parser name argc (opts ++ (opt_unknown ∷ behind)) ≡ exits 1 (usage name))
unfolding parse_options
option_parser-last name argc opts behind h v = (
  given name argc opts h
      ∙ ap (λ os. parse_options name os defaults) (sym (append-nil opts))
      ∙ after_settings name opts [] defaults v,
  given name argc _ h ∙ after_settings name opts (opt_help ∷ behind) defaults v,
  given name argc _ h ∙ after_settings name opts (opt_unknown ∷ behind) defaults v,
)
