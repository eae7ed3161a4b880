-- ===== src/CollectdTypes.antt =====
-- collectd_types.py: the types that the client and the server exchange, and collectd's own two.
use sqlalchemy_collectd.Base.{List, [], ◌∷◌}
use sqlalchemy_collectd.Base.{Result}
use Prim.Native.Char.{code}
use Prim.Native.String.{String}
use sqlalchemy_collectd.Protocol.Bytes.{Text}
use sqlalchemy_collectd.Protocol.Types.{ValueType, gauge, derive, CollectdType, init}

-- The code points of a text.
abbrev pub text : String → Text
text String.[] = []
text (String.◌∷◌ c s) = code c ∷ text s

abbrev pub collectd_plugin_name : Text
collectd_plugin_name = text "sqlalchemy"

abbrev pub pool_name : Text
pool_name = text "sqlalchemy_pool"

abbrev pub process_name : Text
process_name = text "sqlalchemy_process"

abbrev pub totals_name : Text
totals_name = text "sqlalchemy_totals"

abbrev pub pool_fields : List (Text × ValueType)
pool_fields =
    (text "numpools", gauge)
    ∷ (text "checkedout", gauge)
    ∷ (text "checkedin", gauge)
    ∷ (text "detached", gauge)
    ∷ (text "connections", gauge)
    ∷ []

abbrev pub process_fields : List (Text × ValueType)
process_fields = (text "numprocs", gauge) ∷ []

abbrev pub totals_fields : List (Text × ValueType)
totals_fields =
    (text "checkouts", derive)
    ∷ (text "invalidated", derive)
    ∷ (text "connects", derive)
    ∷ (text "disconnects", derive)
    ∷ []

abbrev pub transactions_fields : List (Text × ValueType)
transactions_fields =
    (text "commits", derive) ∷ (text "rollbacks", derive) ∷ (text "transactions", derive) ∷ []

abbrev pub pool_internal : Result CollectdType
pool_internal = init pool_name pool_fields

abbrev pub process_internal : Result CollectdType
process_internal = init process_name process_fields

abbrev pub totals_internal : Result CollectdType
totals_internal = init totals_name totals_fields

abbrev pub transactions_internal : Result CollectdType
transactions_internal = init (text "sqlalchemy_transactions") transactions_fields

abbrev pub count_external : Result CollectdType
count_external = init (text "count") ((text "value", gauge) ∷ [])

abbrev pub derive_external : Result CollectdType
derive_external = init (text "derive") ((text "value", derive) ∷ [])
