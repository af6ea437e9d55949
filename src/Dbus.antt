-- ===== src/Dbus.antt =====
-- internal/backend/dbus: the Secret Service over the session bus.
pub mod Faults
pub mod Client
pub mod Probe
pub mod Dialing
pub mod Traces
pub mod Balance
pub mod Keeping
pub mod Released
pub mod Fetched
pub mod Portable
use common_keyring.Base.{ℕ, String, Bool, Option, List}
use common_keyring.Errors.{GoError, Action}
use common_keyring.Contract.{Bytes}

abbrev pub default_collection_path : String
default_collection_path = "/org/freedesktop/secrets/aliases/default"

abbrev pub completed_member : String
completed_member = "org.freedesktop.Secret.Prompt.Completed"

abbrev pub item_label_prefix : String
item_label_prefix = "common.queueb.org/keyring"

-- Seconds
abbrev pub cleanup_timeout : ℕ
cleanup_timeout = 1

abbrev pub probe_timeout : ℕ
probe_timeout = 5

-- `secretValue`
pub record SecretValue : Type 0 where
  pub session : String
  pub parameters : Bytes
  pub value : Bytes
  pub content_type : String

-- A value in the body of a signal: the code asks whether it is a Boolean.
pub data BodyValue : Type 0 where
  boolean : Bool → BodyValue
  another : BodyValue

-- `godbus.Signal`
pub record Signal : Type 0 where
  pub name : String
  pub body : List BodyValue

-- What `select` in `handlePrompt` receives: the end of the context, a closed channel or a nil
-- signal, or a signal.
pub data Wake : Type 0 where
  done : Wake
  closed : Wake
  received : Signal → Wake

-- The bus, as `connection` and `connector` give access to it, for contexts `K`. A connection is a
-- number and stands for its channel of signals too; a path of an object is a text. A method of an
-- object is its call with the decoding of its answer.
pub record Bus (W K : Type 0) : Type 0 where
  -- `ctx.Err()`, and `context.WithTimeout` of a context, or of the background for `none`
  pub context_err : K → W → Option GoError
  pub with_timeout : Option K → ℕ → W → K
  pub connect : K → Action W ℕ
  pub close : ℕ → Action W (Unit {0})
  -- `Service.Unlock` of one object: the path of the prompt
  pub unlock : K → ℕ → String → Action W String
  -- `Service.OpenSession` without encryption: the path of the session
  pub open_session : K → ℕ → Action W String
  pub close_session : K → ℕ → String → Action W (Unit {0})
  -- `Collection.SearchItems` by the attributes username and service
  pub search_items : K → ℕ → String → String → String → Action W (List String)
  -- `Collection.CreateItem` with its label and the same attributes, replacing: the paths of the
  -- item and of the prompt
  pub create_item :
      K → ℕ → String → String → String → String → SecretValue → Action W (String × String)
  pub get_secret : K → ℕ → String → String → Action W SecretValue
  pub delete_item : K → ℕ → String → Action W String
  pub show_prompt : K → ℕ → String → Action W (Unit {0})
  -- The channel of signals and the rule that matches the completion of a prompt
  pub signal : ℕ → W → W
  pub remove_signal : ℕ → W → W
  pub add_match : K → ℕ → String → Action W (Unit {0})
  pub remove_match : K → ℕ → String → Action W (Unit {0})
  pub wait : K → ℕ → W → Wake × W
