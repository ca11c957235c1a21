-- ===== src/Auth/Rules.antt =====
-- The authorization checks against a description of who is a contact of what.
use lampd.Prelude.{
  ◌≡◌, refl, ◌≢◌, ◌⊎◌, inl, inr, ◌↔◌, true, false, Option, some, List, [], arith, Bool-cases,
  Option-cases,
}
use lampd.Prelude.Bytes.{Bytes, ◌=b◌, =b_iff}
use lampd.Auth.{
  Authorization, loose, strict, Directory, is_contact, is_service_contact, is_authorized_for,
}

-- The user is listed as a contact in what a lookup found.
pub record IsListed (user : Bytes) (found : Option (List Bytes)) : Type 0 where
  pub contacts : List Bytes
  pub exists : found ≡ some contacts
  pub listed : is_contact user contacts ≡ true

-- Who may see a host, and a service of a host.
pub data MaySee (d : Directory) (user host service : Bytes) : Type 0 where
  host_contact : service ≡ [] → IsListed user (d.host_contacts host) → MaySee d user host service
  contact_of_its_host :
      service ≢ []
      → d.service_authorization ≡ loose
      → IsListed user (d.host_contacts host)
      → MaySee d user host service
  -- the host has to exist
  loose_service_contact :
      {contacts : List Bytes}
      → service ≢ []
      → d.service_authorization ≡ loose
      → d.host_contacts host ≡ some contacts
      → IsListed user (d.service_contacts host service)
      → MaySee d user host service
  strict_service_contact :
      service ≢ []
      → d.service_authorization ≡ strict
      → IsListed user (d.service_contacts host service)
      → MaySee d user host service

module _ (d : Directory) (user host service : Bytes) where
  sees : MaySee d user host service → is_authorized_for d user host service ≡ true
  unfolding is_authorized_for is_service_contact
  sees (host_contact e l) = ground (arith, =b_iff service [], l.exists, l.listed)
  sees (contact_of_its_host ne lo l) = ground (arith, =b_iff service [], l.exists, l.listed)
  sees (loose_service_contact ne lo h l) = ground (arith, =b_iff service [], l.exists, l.listed)
  sees (strict_service_contact ne st l) = ground (arith, =b_iff service [], l.exists, l.listed)

  service-IsListed :
      is_service_contact d user host service ≡ true
      → IsListed user (d.service_contacts host service)
  unfolding is_service_contact
  service-IsListed h = elim (Option-cases (d.service_contacts host service)) [
    | inl missing ↦ absurd (ground arith)
    | inr (contacts, found) ↦ record { contacts = contacts; exists = found; listed = ground arith }
  ]

  Authorization-cases : (a : Authorization) → (a ≡ loose) ⊎ (a ≡ strict)
  Authorization-cases loose = inl refl
  Authorization-cases strict = inr refl

  -- What the lookup of the host's contacts leads to.
  from_host :
      service ≢ []
      → d.service_authorization ≡ loose
      → is_authorized_for d user host service ≡ true
      → MaySee d user host service
  unfolding is_authorized_for
  from_host ne lo h = elim (Option-cases (d.host_contacts host)) [
    | inl missing ↦ absurd (ground (arith, =b_iff service []))
    | inr (contacts, found) ↦ elim (Bool-cases (is_contact user contacts)) [
      | inl listed ↦
          contact_of_its_host ne lo
            (record { contacts = contacts; exists = found; listed = listed })
      | inr unlisted ↦
          loose_service_contact ne lo found (service-IsListed (ground (arith, =b_iff service [])))
    ]
  ]

  seen : is_authorized_for d user host service ≡ true → MaySee d user host service
  unfolding is_authorized_for
  seen h = elim (Bool-cases (service =b [])) [
    | inl is_host ↦ elim (Option-cases (d.host_contacts host)) [
      | inl missing ↦ absurd (ground arith)
      | inr (contacts, found) ↦
          host_contact ((=b_iff service []).0 is_host)
            (record { contacts = contacts; exists = found; listed = host_listed is_host found })
    ]
    | inr is_service ↦ elim (Authorization-cases d.service_authorization) [
      | inl lo ↦ from_host (λ e. no_service is_service e) lo h
      | inr st ↦
          strict_service_contact (λ e. no_service is_service e) st (service-IsListed (ground arith))
    ]
  ]
    where
      no_service : (service =b []) ≡ false → service ≡ [] → ⊥
      no_service f e = ground (arith, =b_iff service [])

      host_listed :
          {contacts : List Bytes}
          → (service =b []) ≡ true
          → d.host_contacts host ≡ some contacts
          → is_contact user contacts ≡ true
      host_listed is_host found = unfold is_service_contact in ground arith

  -- A host is visible to its contacts. A service is visible to its own contacts and, where service
  -- authorization is loose, to the contacts of its host; then the host has to exist.
  pub is_authorized_for_iff :
      (is_authorized_for d user host service ≡ true) ↔ MaySee d user host service
  is_authorized_for_iff = (seen, sees)
