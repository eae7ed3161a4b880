-- ===== src/Client/Plugin/Favored.antt =====
-- client/plugin.py: the configuration that `Plugin.__init__` leaves.
use sqlalchemy_collectd.Base.{
  ◌≡◌, refl, ap, sym, ◌∙◌, Bool, ◌||◌, Option, none, some, [], if◌then◌else◌, nat_eq, list_eq, ◌==◌,
  ok, raise, stuck, arith,
}
use mathlib.Core.Path.{subst}
use sqlalchemy_collectd.Base.Dict.{lookup}
use sqlalchemy_collectd.Protocol.Bytes.{Text}
use sqlalchemy_collectd.CollectdTypes.{text}
use sqlalchemy_collectd.Client.Plugin.{Argument, Arguments, Plugin, int_of, init}
use sqlalchemy_collectd.Client.Plugin.Arguments.{
  Agrees, favored, converted, is_argument, Gets, get_argument-Gets, config-other, config-same,
  kwargs-other,
}

none-Agrees : (o : Option Argument) → Agrees none (λ a. a) o
none-Agrees none = tt
none-Agrees (some a) = refl

-- A value that is given is a number, or a text that `int` takes.
abbrev pub number_of : Argument → Argument
number_of a = elim (int_of a) [ ok b ↦ b | raise e ↦ a | stuck ↦ a ]

abbrev pub IsNumber : Option Argument → Type 0
IsNumber none = Unit {0}
IsNumber (some a) = int_of a ≡ ok (number_of a)

-- The configuration of a plugin from these arguments, with what is left of the keywords.
pub record IsFavored (query kwargs : Arguments) (p : Plugin) : Type 0 where
  pub host :
      lookup (text "collectd_host") p.config
      ≡ favored (lookup (text "collectd_host") query) (lookup (text "collectd_host") kwargs)
  pub port :
      lookup (text "collectd_port") p.config
      ≡ converted number_of
          (favored (lookup (text "collectd_port") query) (lookup (text "collectd_port") kwargs))
  pub hostname :
      lookup (text "hostname") p.config
      ≡ favored
          (lookup (text "collectd_report_host") query)
          (lookup (text "collectd_report_host") kwargs)
  pub progname :
      lookup (text "progname") p.config
      ≡ favored
          (lookup (text "collectd_program_name") query)
          (lookup (text "collectd_program_name") kwargs)
  pub others : (j : Text) → lookup j p.kwargs ≡ (if is_argument j then none else lookup j kwargs)

IsNumber-Agrees : (o : Option Argument) → IsNumber o → Agrees (some int_of) number_of o
IsNumber-Agrees none h = tt
IsNumber-Agrees (some a) h = h

converted-id : (o : Option Argument) → converted (λ a. a) o ≡ o
converted-id none = refl
converted-id (some a) = refl

abbrev host_argument : Text
host_argument = text "collectd_host"

abbrev port_argument : Text
port_argument = text "collectd_port"

abbrev report_argument : Text
report_argument = text "collectd_report_host"

abbrev program_argument : Text
program_argument = text "collectd_program_name"

abbrev hostname_entry : Text
hostname_entry = text "hostname"

abbrev progname_entry : Text
progname_entry = text "progname"

unless_same :
    (b : Bool) {x y : Option Argument} → x ≡ y → (if b then none else x) ≡ (if b then none else y)
unless_same b e = ap (λ u. if b then none else u) e

unless_any :
    (a b c d : Bool) (o : Option Argument)
    → (if d then none else if c then none else if b then none else if a then none else o)
      ≡ (if a || b || c || d then none else o)
unless_any a b c d o = ground arith

-- the four arguments, one after the other
all-IsFavored :
    {sqla14_style : Bool} {query kwargs : Arguments} {p q r s : Plugin}
    → Gets sqla14_style
        (text "collectd_host")
        (text "collectd_host")
        (λ a. a)
        (record { kwargs = kwargs; query = query; config = [] })
        p
    → Gets sqla14_style (text "collectd_port") (text "collectd_port") number_of p q
    → Gets sqla14_style (text "collectd_report_host") (text "hostname") (λ a. a) q r
    → Gets sqla14_style (text "collectd_program_name") (text "progname") (λ a. a) r s
    → IsFavored query kwargs s
all-IsFavored {query} {kwargs} {p} {q} {r} {s} g h i j = record {
  host =
      config-other j host_argument refl
      ∙ config-other i host_argument refl
      ∙ config-other h host_argument refl
      ∙ config-same g refl
      ∙ converted-id (favored (lookup host_argument query) (lookup host_argument kwargs));
  port =
      config-other j port_argument refl
      ∙ config-other i port_argument refl
      ∙ config-same h (config-other g port_argument refl)
      ∙ rw (g.query port_argument refl, kwargs-other g port_argument refl) refl;
  hostname =
      config-other j hostname_entry refl
      ∙ config-same i (config-other h hostname_entry refl ∙ config-other g hostname_entry refl)
      ∙ converted-id (favored (lookup report_argument q.query) (lookup report_argument q.kwargs))
      ∙ rw
          (
            h.query report_argument refl,
            g.query report_argument refl,
            kwargs-other h report_argument refl,
            kwargs-other g report_argument refl,
          )
          refl;
  progname =
      config-same j (
        config-other i progname_entry refl
        ∙ config-other h progname_entry refl
        ∙ config-other g progname_entry refl)
      ∙ converted-id (favored (lookup program_argument r.query) (lookup program_argument r.kwargs))
      ∙ rw
          (
            i.query program_argument refl,
            h.query program_argument refl,
            g.query program_argument refl,
            kwargs-other i program_argument refl,
            kwargs-other h program_argument refl,
            kwargs-other g program_argument refl,
          )
          refl;
  others = λ k.
      j.kwargs k
      ∙ unless_same (program_argument == k) (
          i.kwargs k
          ∙ unless_same (report_argument == k)
              (h.kwargs k ∙ unless_same (port_argument == k) (g.kwargs k)))
      ∙ unless_any (host_argument == k) (port_argument == k) (report_argument == k)
          (program_argument == k) (lookup k kwargs);
}

-- `Plugin.__init__` returns where each port that is given is a number or a text that `int` takes.
-- Each argument of the URL stands in the configuration, or else the keyword of its name, a port as a
-- number; none of the four is left among the keywords, and the other keywords are.
pub init-IsFavored :
    (sqla14_style : Bool) (query kwargs : Arguments)
    → IsNumber (lookup (text "collectd_port") query)
    → IsNumber (lookup (text "collectd_port") kwargs)
    → (p : Plugin) × (init sqla14_style query kwargs ≡ ok p) × IsFavored query kwargs p
unfolding init
init-IsFavored sqla14_style query kwargs in_query in_kwargs =
    let port = text "collectd_port" in
    let report = text "collectd_report_host" in
    let program = text "collectd_program_name" in
    let start : Plugin = record { kwargs = kwargs; query = query; config = [] } in
    let (p, e, g) =
      get_argument-Gets sqla14_style (text "collectd_host") (text "collectd_host") none (λ a. a)
        start (none-Agrees _) (none-Agrees _) in
    let (q, f, h) =
      get_argument-Gets sqla14_style port port (some int_of) number_of p
        (IsNumber-Agrees _ (subst IsNumber (sym (kwargs-other g port refl)) in_kwargs))
        (IsNumber-Agrees _ (subst IsNumber (sym (g.query port refl)) in_query)) in
    let (r, k, i) =
      get_argument-Gets sqla14_style report (text "hostname") none (λ a. a) q (none-Agrees _)
        (none-Agrees _) in
    let (s, l, j) =
      get_argument-Gets sqla14_style program (text "progname") none (λ a. a) r (none-Agrees _)
        (none-Agrees _) in
    (s, rw e (rw f (rw k l)), all-IsFavored g h i j)
