-- ===== src/Tests/Hosts.antt =====
-- x509_name_match.c, with the names of its test.
use fetchmail.Prelude.{
  ◌≡◌, refl, ◌≢◌, ◌⊎◌, true, false, ◌++◌, arith, length, Lacks, codes, str_case_eq,
}
use fetchmail.NameMatch.{strspn, dom, number_dots, name_match}
use fetchmail.NameMatch.Wildcard.{IsLiteral, Covers, name_match_sound, name_match_wildcard}

plain : name_match (codes "example.org") (codes "Example.org") ≡ true
unfolding name_match str_case_eq
plain = refl

no_component : name_match (codes "*example.org") (codes "foo.example.org") ≡ false
unfolding name_match str_case_eq
no_component = refl

top_level : name_match (codes "*.com") (codes "example.com") ≡ false
unfolding name_match str_case_eq
top_level = refl

literal_host : name_match (codes "*.168.23.23") (codes "192.168.23.23") ≡ false
unfolding name_match str_case_eq
literal_host = refl

not_literal :
    strspn (codes "www" ++ codes ".example.org") dom ≢ length (codes "www" ++ codes ".example.org")
unfolding strspn
not_literal e = absurd (omega (arith, e))

www_is_one : Lacks b'.' (codes "www")
www_is_one = (λ e. omega (arith, e), (λ e. omega (arith, e), (λ e. omega (arith, e), tt)))

not_address : ¬ IsLiteral (codes ".Example.org")
unfolding strspn
not_address e = absurd (omega (arith, e))

same : str_case_eq (codes ".Example.org") (codes ".example.org") ≡ true
unfolding str_case_eq
same = refl

wild_run : name_match (codes "*.Example.org") (codes "a.b.example.org") ≡ true
unfolding name_match str_case_eq
wild_run = refl

name_match_wildcard_example :
    name_match (codes "*.Example.org") (codes "www" ++ codes ".example.org") ≡ true
name_match_wildcard_example =
    name_match_wildcard (codes "Example.org") (codes "www") (codes ".example.org") www_is_one
      not_address (unfold number_dots in omega arith) not_literal same

name_match_sound_example :
    (str_case_eq (codes "*.Example.org") (codes "a.b.example.org") ≡ true)
    ⊎ Covers (codes "*.Example.org") (codes "a.b.example.org")
name_match_sound_example =
    name_match_sound (codes "*.Example.org") (codes "a.b.example.org") wild_run
