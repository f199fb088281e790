-- ===== src/Users/Pages.antt =====
-- app/services/user_service.py: the pages of the list of users.
use pruet_web_dev.Base.{
  ℕ, zero, suc, ◌+◌, ◌-◌, ◌*◌, ◌≤◌, ◌≡◌, refl, sym, ap, ◌∙◌, List, [], ◌∷◌, ◌++◌, map, arith,
  length, take, drop, ltb, length-take-le,
}
use pruet_web_dev.Base.Sorting.{sort}
use pruet_web_dev.Base.SortingLaws.{length-sort}
use pruet_web_dev.Models.{User, Pg}
use pruet_web_dev.Users.Accounts.{Settings, UserResponse, build_user_response, get_users_paginated}

take_nil : {A : Type 0} (n : ℕ) → take {A = A} n [] ≡ []
take_nil zero = refl
take_nil (suc n) = refl

take-add : {A : Type 0} (m n : ℕ) (xs : List A) → take (m + n) xs ≡ take m xs ++ take n (drop m xs)
take-add zero n xs = ap (λ k. take k xs) (omega arith)
take-add (suc m) n [] = take_nil (suc m + n) ∙ sym (take_nil n)
take-add (suc m) n (x ∷ xs) =
    let next : suc m + n ≡ suc (m + n) = omega arith in
    ap (λ k. take k (x ∷ xs)) next ∙ ap (λ t. x ∷ t) (take-add m n xs)

take_whole : {A : Type 0} (n : ℕ) (xs : List A) → length xs ≤ n → take n xs ≡ xs
take_whole zero [] h = refl
take_whole zero (x ∷ xs) h = absurd (ground arith)
take_whole (suc n) [] h = refl
take_whole (suc n) (x ∷ xs) h = ap (λ t. x ∷ t) (take_whole n xs (ground arith))

map-append : {A B : Type 0} (f : A → B) (xs ys : List A) → map f (xs ++ ys) ≡ map f xs ++ map f ys
map-append f [] ys = refl
map-append f (x ∷ xs) ys = ap (λ t. f x ∷ t) (map-append f xs ys)

-- the first pages, one behind the other
pub first_pages : Settings → ℕ → ℕ → Pg → List UserResponse
first_pages s page_size zero pg = []
first_pages s page_size (suc k) pg =
    first_pages s page_size k pg ++ (get_users_paginated s (suc k) page_size pg).0

-- all users in the order of their ids
abbrev pub listed : Settings → Pg → List UserResponse
listed s pg = map (λ u. build_user_response u s.read_source) (sort (λ u v. ltb u.id v.id) pg.users)

page_shown :
    (s : Settings) (k page_size : ℕ) (pg : Pg)
    → (get_users_paginated s (suc k) page_size pg).0
      ≡ map
          (λ u. build_user_response u s.read_source)
          (take page_size (drop (k * page_size) (sort (λ u v. ltb u.id v.id) pg.users)))
unfolding get_users_paginated
page_shown s k page_size pg =
    let before : suc k - 1 ≡ k = omega arith in
    ap
      (λ j.
        map (λ u. build_user_response u s.read_source)
          (take page_size (drop (j * page_size) (sort (λ u v. ltb u.id v.id) pg.users))))
      before

first_pages_shown :
    (s : Settings) (page_size k : ℕ) (pg : Pg)
    → first_pages s page_size k pg
      ≡ map
          (λ u. build_user_response u s.read_source)
          (take (k * page_size) (sort (λ u v. ltb u.id v.id) pg.users))
unfolding first_pages
first_pages_shown s page_size zero pg =
    let none_before : 0 * page_size ≡ 0 = omega arith in rw none_before refl
first_pages_shown s page_size (suc k) pg =
    let us : List User = sort (λ u v. ltb u.id v.id) pg.users in
    let f : User → UserResponse = λ u. build_user_response u s.read_source in
    let more : suc k * page_size ≡ k * page_size + page_size = ground arith in
    ap (λ t. t ++ (get_users_paginated s (suc k) page_size pg).0)
      (first_pages_shown s page_size k pg)
    ∙ ap (λ t. map f (take (k * page_size) us) ++ t) (page_shown s k page_size pg)
    ∙ sym (map-append f (take (k * page_size) us) (take page_size (drop (k * page_size) us)))
    ∙ ap (map f) (sym (take-add (k * page_size) page_size us))
    ∙ ap (λ n. map f (take n us)) (sym more)

length-map : {A B : Type 0} (f : A → B) (xs : List A) → length (map f xs) ≡ length xs
length-map f [] = refl
length-map f (x ∷ xs) = ap (λ n. suc n) (length-map f xs)

-- The pages of the list of users, one behind the other, are the users in the order of their ids, each
-- exactly once, as soon as there are enough pages; and no page is longer than the page size.
pub first_pages-listed :
    (s : Settings) (page_size k : ℕ) (pg : Pg)
    → length pg.users ≤ k * page_size
    → (first_pages s page_size k pg ≡ listed s pg)
      × ((page : ℕ) → length (get_users_paginated s (suc page) page_size pg).0 ≤ page_size)
first_pages-listed s page_size k pg enough = (
  first_pages_shown s page_size k pg
      ∙ ap (map (λ u. build_user_response u s.read_source)) (
          take_whole (k * page_size) (sort (λ u v. ltb u.id v.id) pg.users)
            (rw (length-sort (λ u v. ltb u.id v.id) pg.users) enough)),
  λ page.
      let shown = page_shown s page page_size pg in
      let same =
        length-map (λ u. build_user_response u s.read_source)
          (take page_size (drop (page * page_size) (sort (λ u v. ltb u.id v.id) pg.users))) in
      let short =
        length-take-le page_size
          (drop (page * page_size) (sort (λ (u : User) v. ltb u.id v.id) pg.users)) in
      rw shown (rw same short),
)
