-- ===== src/Deb.antt =====
-- deb.go: what a package answers about itself.
use godinstall.Prelude.{Bool, List, Option, Bytes}
use godinstall.DebVersion.{DebVersion}
use godinstall.Control.{Paragraph}

-- A value, an error, or a panic: GetValue panics at a field that the control file does not have.
pub data Query (A : Type 0) : Type 0 where
  gives : A → Query A
  fails panics : Query A

-- `DebPackageInfoer`: the answers for a file. The code ignores the errors of `Version` and `Architecture`,
-- whose `none` is a panic; `signers` is `none` where `SignedBy` gives nil.
pub record PackageInfo : Type 0 where
  pub name : Query Bytes
  pub version : Option DebVersion
  pub architecture : Option Bytes
  pub control : Query Paragraph
  pub is_signed : Bool
  pub is_verified : Bool
  pub signers : Option (List Bytes)
