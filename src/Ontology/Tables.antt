-- ===== src/Ontology/Tables.antt =====
-- The tables of ontology/schema_org.py: excluded families, aliases, symmetric predicates, and the
-- inverses that the vocabulary does not declare.
use segnog.Prelude.{String, List, [], ◌∷◌, Dict}

unfoldable pub excluded_parents : List String
excluded_parents = "Action" ∷ "Enumeration" ∷ "StructuredValue" ∷ "DataType" ∷ []

unfoldable pub class_aliases : Dict String
class_aliases =
    ("company", "Organization")
    ∷ ("corporation", "Corporation")
    ∷ ("firm", "Organization")
    ∷ ("business", "LocalBusiness")
    ∷ ("store", "Store")
    ∷ ("shop", "Store")
    ∷ ("hospital", "Hospital")
    ∷ ("school", "School")
    ∷ ("university", "CollegeOrUniversity")
    ∷ ("college", "CollegeOrUniversity")
    ∷ ("location", "Place")
    ∷ ("city", "City")
    ∷ ("country", "Country")
    ∷ ("region", "AdministrativeArea")
    ∷ ("address", "PostalAddress")
    ∷ ("human", "Person")
    ∷ ("individual", "Person")
    ∷ ("character", "Person")
    ∷ ("movie", "Movie")
    ∷ ("film", "Movie")
    ∷ ("book", "Book")
    ∷ ("song", "MusicRecording")
    ∷ ("album", "MusicAlbum")
    ∷ ("article", "Article")
    ∷ ("website", "WebSite")
    ∷ ("webpage", "WebPage")
    ∷ ("job", "JobPosting")
    ∷ ("disease", "MedicalCondition")
    ∷ ("drug", "Drug")
    ∷ ("award", "Award")
    ∷ ("course", "Course")
    ∷ ("recipe", "Recipe")
    ∷ ("vehicle", "Vehicle")
    ∷ ("car", "Car")
    ∷ ("language", "Language")
    ∷ ("animal", "Animal")
    ∷ ("pet", "Animal")
    ∷ ("dog", "Animal")
    ∷ ("cat", "Animal")
    ∷ ("bird", "Animal")
    ∷ ("horse", "Animal")
    ∷ ("rabbit", "Animal")
    ∷ ("fish", "Animal")
    ∷ []

unfoldable pub predicate_aliases : Dict String
predicate_aliases =
    ("is-friend-of", "knows")
    ∷ ("friend-of", "knows")
    ∷ ("friends-with", "knows")
    ∷ ("knows-person", "knows")
    ∷ ("works-at", "worksFor")
    ∷ ("works-for", "worksFor")
    ∷ ("employed-at", "worksFor")
    ∷ ("employed-by", "worksFor")
    ∷ ("is-employed-at", "worksFor")
    ∷ ("is-employed-by", "worksFor")
    ∷ ("works-with", "colleague")
    ∷ ("is-colleague-of", "colleague")
    ∷ ("is-mother-of", "children")
    ∷ ("is-father-of", "children")
    ∷ ("is-parent-of", "children")
    ∷ ("has-child", "children")
    ∷ ("has-daughter", "children")
    ∷ ("has-son", "children")
    ∷ ("is-daughter-of", "parent")
    ∷ ("is-son-of", "parent")
    ∷ ("is-child-of", "parent")
    ∷ ("mother-of", "children")
    ∷ ("father-of", "children")
    ∷ ("daughter-of", "parent")
    ∷ ("son-of", "parent")
    ∷ ("child-of", "parent")
    ∷ ("married-to", "spouse")
    ∷ ("is-married-to", "spouse")
    ∷ ("is-sibling-of", "sibling")
    ∷ ("sibling-of", "sibling")
    ∷ ("is-related-to", "relatedTo")
    ∷ ("related-to", "relatedTo")
    ∷ ("lives-in", "homeLocation")
    ∷ ("located-in", "homeLocation")
    ∷ ("based-in", "homeLocation")
    ∷ ("resides-in", "homeLocation")
    ∷ ("born-in", "birthPlace")
    ∷ ("from", "birthPlace")
    ∷ ("nationality", "nationality")
    ∷ ("is-from", "birthPlace")
    ∷ ("member-of", "memberOf")
    ∷ ("belongs-to", "memberOf")
    ∷ ("part-of", "memberOf")
    ∷ ("graduated-from", "alumniOf")
    ∷ ("attended", "alumniOf")
    ∷ ("studied-at", "alumniOf")
    ∷ ("founded", "founder")
    ∷ ("founded-by", "founder")
    ∷ ("owns", "owns")
    ∷ ("owned-by", "owner")
    ∷ ("has-affiliation", "affiliation")
    ∷ ("affiliated-with", "affiliation")
    ∷ ("located-at", "location")
    ∷ ("has-location", "location")
    ∷ []

unfoldable pub symmetric_names : List String
symmetric_names = "knows" ∷ "colleague" ∷ "spouse" ∷ "sibling" ∷ "relatedTo" ∷ []

unfoldable pub manual_inverses : Dict String
manual_inverses = ("parent", "children") ∷ ("children", "parent") ∷ []
