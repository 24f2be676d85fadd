-- ===== src/Federation/Interfaces.antt =====
-- What the federation calls of serde_json, url and std::net, as parameters: a `Value` by its accessors,
-- a parsed URL by its parts.
use verdant_backend.Prelude.{ℕ, Bool, List, Option}
use verdant_backend.Federation.Decimal.{ℤ}
use verdant_backend.PublicNet.{IpAddr}

pub record Json : Type 1 where
  pub Value : Type 0
  pub get : Value → List ℕ → Option Value
  pub is_null : Value → Bool
  pub is_boolean : Value → Bool
  pub as_str : Value → Option (List ℕ)
  pub as_i64 : Value → Option ℤ
  pub as_array : Value → Option (List Value)
  pub as_object : Value → Option (List (List ℕ × Value))
  pub to_vec : Value → Option (List ℕ)

pub record Url : Type 0 where
  pub scheme : List ℕ
  pub username : List ℕ
  pub password : Option (List ℕ)
  pub query : Option (List ℕ)
  pub fragment : Option (List ℕ)
  pub host_str : Option (List ℕ)
  pub path_segments : Option (List (List ℕ))

pub record Urls : Type 0 where
  pub parse_url : List ℕ → Option Url
  pub parse_ip : List ℕ → Option IpAddr
