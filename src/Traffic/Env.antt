-- ===== src/Traffic/Env.antt =====
-- internal/traffic/deps.go: what the shaper asks of the kernel, through netlink, sysfs and external
-- commands. Each answer may depend on all calls made before it, so an `Env` is any environment at all,
-- also one that changes by itself between two calls.
use tcsss.Prelude.Int.{ℤ}
use tcsss.Prelude.{ℕ, Bool, false, Option, none, some, List, [], ◌∷◌, ◌++◌, M}
use tcsss.Text.Ops.{Text}
use tcsss.Errors.{GoError}

pub data Result {ℓ} (A : Type ℓ) : Type ℓ where
  ok : A → Result A
  err : GoError → Result A

-- `netlink.LinkAttrs`, the fields that the program reads; the flags are the bits that it tests.
pub record LinkAttrs : Type 0 where
  pub name : Text
  pub index : ℤ
  pub mtu : ℤ
  pub tx_qlen : ℤ
  pub flag_loopback : Bool
  pub flag_up : Bool

-- A `netlink.Link` that is not nil; its `Attrs()` may be nil.
pub record Link : Type 0 where
  pub attrs : Option LinkAttrs

-- `netlink.Route`: the destination's mask as `Mask.Size()` reports it, or nil.
pub record Route : Type 0 where
  pub dst : Option (ℕ × ℕ)
  pub link_index : ℤ

pub data Family : Type 0 where
  v4 v6 : Family

-- A call of the outside world, with its arguments.
pub data Call : Type 0 where
  link_list : Call
  link_by_name : Text → Call
  link_by_index : ℤ → Call
  link_del : Link → Call
  link_set_mtu : Option Link → ℤ → Call
  link_set_tx_qlen : Option Link → ℤ → Call
  route_list : Family → Call
  exec : Text → List Text → Call
  eval_symlinks : Text → Call
  read_link : Text → Call
  read_file : Text → Call
  time_now : Call
  link_subscribe : Call
  addr_subscribe : Call

abbrev pub History : Type 0
History = List Call

-- What a command printed, and its error.
pub record Output : Type 0 where
  pub text : Text
  pub failure : Option GoError

pub record Env : Type 0 where
  pub links : History → Result (List Link)
  pub named : History → Text → Result (Option Link)
  pub indexed : History → ℤ → Result (Option Link)
  pub delete : History → Link → Option GoError
  pub set_mtu : History → Option Link → ℤ → Option GoError
  pub set_tx_qlen : History → Option Link → ℤ → Option GoError
  pub routes : History → Family → Result (List Route)
  pub run : History → Text → List Text → Output
  pub resolve : History → Text → Option Text
  pub target : History → Text → Option Text
  pub content : History → Text → Option Text
  -- `LinkSubscribeWithOptions` and `AddrSubscribeWithOptions`.
  pub subscribe_links : History → Option GoError
  pub subscribe_addrs : History → Option GoError
  -- Nanoseconds on the monotonic clock.
  pub now : History → ℕ

-- Makes a call: its answer, and the history with the call at the end.
abbrev pub ask : {A : Type 0} → (History → A) → Call → M History A
ask answer call h = (answer h, h ++ (call ∷ []))

-- The attributes of a link that may be nil.
abbrev pub attrs_of : Option Link → Option LinkAttrs
attrs_of none = none
attrs_of (some l) = l.attrs

-- The state of the shaper and of its classifier, with the calls made so far.
pub record Shaper : Type 0 where
  pub history : History
  pub external_link_indexes : List ℤ
  pub virtual_cache : List (Text × Bool)
  -- `none` is the zero time.
  pub last_refresh : Option ℕ
  pub applied_signatures : List (Text × Text)
  pub did_initial_cleanup : Bool

abbrev pub initial : History → Shaper
initial h = record {
  history = h;
  external_link_indexes = [];
  virtual_cache = [];
  last_refresh = none;
  applied_signatures = [];
  did_initial_cleanup = false;
}

-- A call made by a method of the shaper.
abbrev pub call : {A : Type 0} → M History A → M Shaper A
call m s = let (a, h) = m s.history in (a, record s { history = h })
