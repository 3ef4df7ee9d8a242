-- ===== src/Server/Options.antt =====
-- `option_parser` of src/proxy/main.cc. `getopt_long` is the C library's: its results, one after the
-- other, are the argument.
pub mod Choice
use mathlib.Core.List.{flatten}
use logcabin_redis_proxy.Base.{ℕ, Bool, List, [], ◌∷◌, ◌++◌, ◌≡◌, refl, ltb, if◌then◌else◌, ℤ, pos}
use logcabin_redis_proxy.Bytes.{Bytes, codes}
use logcabin_redis_proxy.Num.{atoi}

pub record Options : Type 0 where
  pub cluster : Bytes
  pub bind_addr : Bytes
  pub service_port : ℤ
  pub set_size : ℤ
  pub thread_num : ℤ

-- What `getopt_long` returns, with `optarg`.
pub data Opt : Type 0 where
  opt_cluster opt_size opt_port opt_address opt_thread_num : Bytes → Opt
  opt_help opt_unknown : Opt

-- The options, or the process exits: with a status, when it has printed a text.
pub data Parsed : Type 0 where
  options : Options → Parsed
  exits : ℕ → Bytes → Parsed

abbrev pub defaults : Options
defaults = record {
  cluster = codes "127.0.0.1:5254";
  bind_addr = codes "0.0.0.0";
  service_port = pos 6380;
  set_size = pos 1024;
  thread_num = pos 10;
}

endl : Bytes
endl = 10 ∷ []

-- What `usage` prints, for the name in `argv[0]`.
unfoldable pub usage : Bytes → Bytes
unfolding endl
usage name = flatten (
    codes "Usage: "
    ∷ name
    ∷ codes " [options]"
    ∷ endl
    ∷ endl
    ∷ codes "Options:"
    ∷ endl
    ∷ codes "  -c <addresses>, --cluster=<addresses>  "
    ∷ codes "Network addresses of the LogCabin, comma-separated (default: localhost:5254)"
    ∷ endl
    ∷ codes "  -h, --help "
    ∷ codes "Print this usage information"
    ∷ endl
    ∷ codes "  -s <set_size> --size=<set_size> "
    ∷ codes "Size of event loop [default: 1024]"
    ∷ endl
    ∷ codes "  -p <service_port> --port=<service_port> "
    ∷ codes "Service port of proxy"
    ∷ endl
    ∷ codes "  -a <bind_addr> --address=<bind_addr> "
    ∷ codes "Binding address of proxy"
    ∷ endl
    ∷ codes "  -t <thread_num> --thread_num=<num> "
    ∷ codes "Num of working thread"
    ∷ endl
    ∷ endl
    ∷ [])

-- The `while (true)` with its switch.
unfoldable pub parse_options : Bytes → List Opt → Options → Parsed
parse_options name [] o = options o
parse_options name (opt_cluster a ∷ os) o = parse_options name os (record o { cluster = a })
parse_options name (opt_size a ∷ os) o = parse_options name os (record o { set_size = atoi a })
parse_options name (opt_port a ∷ os) o = parse_options name os (record o { service_port = atoi a })
parse_options name (opt_address a ∷ os) o = parse_options name os (record o { bind_addr = a })
parse_options name (opt_thread_num a ∷ os) o =
    parse_options name os (record o { thread_num = atoi a })
parse_options name (opt_help ∷ os) o = exits 0 (usage name)
parse_options name (opt_unknown ∷ os) o = exits 1 (usage name)

-- The constructor.
unfoldable pub option_parser : Bytes → ℕ → List Opt → Parsed
unfolding parse_options
option_parser name argc opts =
    if ltb argc 2 then exits 1 (usage name) else parse_options name opts defaults
