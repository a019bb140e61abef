-- ===== src/Store/Tables.antt =====
-- The tables of tenant_store.py, what is sealed in their `data` columns, and the cryptography, which
-- is a parameter: Fernet (`encrypt`, `decrypt`), HMAC (`digest`) and the random tokens.
use amazon_echo_home_voice.Prelude.{List, Option, String, [], ℕ}
use amazon_echo_home_voice.Gateway.Config.{GatewayConfig}

-- The dictionaries that are sealed: {"version": 1}, {"owner", "config"}, {"id", "verifier"} and the
-- session's.
pub data Envelope : Type 0 where
  marker : Envelope
  connection_of : String → GatewayConfig → Envelope
  flow_of : String → String → Envelope
  session_of : (id issuer subject access_token csrf : String) → (expires : ℕ) → Envelope

pub record ConnectionRow : Type 0 where
  pub owner : String
  pub sealed : List ℕ

pub record FlowRow : Type 0 where
  pub id : String
  pub browser : String
  pub sealed : List ℕ
  pub expires : ℕ

pub record SessionRow : Type 0 where
  pub id : String
  pub owner : String
  pub sealed : List ℕ
  pub expires : ℕ

pub record Tables : Type 0 where
  pub connections : List ConnectionRow
  pub flows : List FlowRow
  pub sessions : List SessionRow

abbrev pub no_rows : Tables
no_rows = record { connections = []; flows = []; sessions = [] }

-- `digest kind values` is `_digest`: the HMAC of the JSON list of a kind and its values.
pub record Crypto : Type 0 where
  pub encrypt : Envelope → List ℕ
  pub decrypt : List ℕ → Option Envelope
  pub digest : String → List String → String
